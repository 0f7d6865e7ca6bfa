-- ===== src/Cli/Lines/Queue.antt =====
-- What the lines of crates/client/src/bin/sechat-cli.rs put in the queue of commands.
use mathlib.Core.Path.{subst}
use mathlib.Core.List.{append-nil}
use sechat_client.Base.{
  ◌≤◌, ◌≡◌, refl, sym, ap, ◌∙◌, ◌⊎◌, inl, inr, Bool, true, false, ◌||◌, Option, List, [], ◌∷◌, ◌++◌,
  arith, if◌then◌else◌, Option-cases, length,
}
use sechat_client.Base.Bytes.{Bytes, Text}
use sechat_client.Base.Int.{ℤ}
use sechat_client.Base.Strings.{trim, splitn}
use sechat_client.Cli.{Cli, println, print_all, command, parse32}
use sechat_client.Cli.Actions.{
  set_world, name_peer, show_my_keys, switch_server, add_keys, purge_peer, drop_peer, show_history,
  with_peer, show_peers, show_server,
}
use sechat_client.Cli.Lines.{is_word, one_argument, two_arguments, run_words, run_line}
use sechat_client.Client.Facade.{Front, Handle, submit, put_disk, resolve_peer, add_peer}
use sechat_client.Client.Types.{
  Command, send, connect, purge_chat, remove_peer, announce_now, set_server, shutdown,
}
use sechat_client.Server.Services.{Services}

module _ {D : Type 0} where
  -- `c'` has at most one command more in its queue than `c`, at the end.
  record Queued (c c' : Cli D) : Type 0 where
    pub fresh : List Command
    pub appended : c'.front.commands ≡ c.front.commands ++ fresh
    pub at_most_one : length fresh ≤ 1

  nothing : (c c' : Cli D) → c'.front.commands ≡ c.front.commands → Queued c c'
  nothing c c' e = record {
    fresh = [];
    appended = e ∙ sym (append-nil c.front.commands);
    at_most_one = omega arith;
  }

  one : (m : Command) (c c' : Cli D) → c'.front.commands ≡ c.front.commands ++ m ∷ [] → Queued c c'
  one m c c' e = record { fresh = m ∷ []; appended = e; at_most_one = omega arith }

  via : (b c c' : Cli D) → b.front.commands ≡ c.front.commands → Queued b c' → Queued c c'
  via b c c' e q = record {
    fresh = q.fresh;
    appended = q.appended ∙ ap (λ l. l ++ q.fresh) e;
    at_most_one = q.at_most_one;
  }

module _ {D : Type 0} (x : Services D) (now : ℤ) (env : Option Text) where
  with_peer-Queued :
      (query : Text) (f : Bytes → Cli D → Cli D) (c : Cli D)
      → ((id : Bytes) (b : Cli D) → Queued b (f id b))
      → Queued c (with_peer x now query f c)
  unfolding with_peer println set_world
  with_peer-Queued query f c each = elim (Option-cases (resolve_peer x now query c.front.world).0) [
    | inl h ↦ nothing c _ (ground (arith, h))
    | inr (id, h) ↦
        let b = set_world x (resolve_peer x now query c.front.world).1 c in
        subst (λ r. Queued c r) (ground (arith, h)) (via b c (f id b) refl (each id b))
  ]

  name_peer-Queued : (name : Text) (id : Bytes) (c : Cli D) → Queued c (name_peer x name id c)
  unfolding name_peer println put_disk
  name_peer-Queued name id c = nothing c _ (ground arith)

  show_history-Queued : (id : Bytes) (c : Cli D) → Queued c (show_history x id c)
  unfolding show_history println print_all put_disk
  show_history-Queued id c = nothing c _ (ground arith)

  add_peer-commands :
      (h : Handle) (k v : Bytes) (f : Front D)
      → ((add_peer x h k v f).1.commands ≡ f.commands)
        ⊎ ((add_peer x h k v f).1.commands ≡ f.commands ++ announce_now ∷ [])
  unfolding add_peer put_disk submit
  add_peer-commands h k v f = ground arith

  add_keys-Queued : (k v : Text) (c : Cli D) → Queued c (add_keys x k v c)
  unfolding add_keys println
  add_keys-Queued k v c = elim (Option-cases (parse32 x k)) [
    | inl e ↦ nothing c _ (ground (arith, e))
    | inr (k', e) ↦ elim (Option-cases (parse32 x v)) [
      | inl e' ↦ nothing c _ (ground (arith, e, e'))
      | inr (v', e') ↦ elim (add_peer-commands c.handle k' v' c.front) [
        | inl same ↦ nothing c _ (ground (arith, e, e', same))
        | inr more ↦ one announce_now c _ (ground (arith, e, e', more))
      ]
    ]
  ]

  one_argument-Queued :
      (usage : Text) (args : List Text) (f : Text → Cli D → Cli D) (c : Cli D)
      → ((a : Text) → Queued c (f a c))
      → Queued c (one_argument x now env usage args f c)
  unfolding one_argument println
  one_argument-Queued usage [] f c each = nothing c _ refl
  one_argument-Queued usage (a ∷ more) f c each = each a

  two_arguments-Queued :
      (usage : Text) (args : List Text) (f : Text → Text → Cli D → Cli D) (c : Cli D)
      → ((a b : Text) → Queued c (f a b c))
      → Queued c (two_arguments x now env usage args f c)
  unfolding two_arguments println
  two_arguments-Queued usage [] f c each = nothing c _ refl
  two_arguments-Queued usage (a ∷ []) f c each = nothing c _ refl
  two_arguments-Queued usage (a ∷ b ∷ more) f c each = each a b

  -- The result of a line, and what it may have queued.
  Good : Cli D → Bool × Cli D → Type 0
  Good c r =
      Queued c r.1 × ((r.0 ≡ true) ⊎ (r.1.front.commands ≡ c.front.commands ++ shutdown ∷ []))

  stay : (c c' : Cli D) → Queued c c' → Good c (true, c')
  unfolding Good
  stay c c' q = (q, inl refl)

  choose :
      (b : Bool) (c : Cli D) (p q : Bool × Cli D)
      → Good c p
      → Good c q
      → Good c (if b then p else q)
  choose true c p q h k = h
  choose false c p q h k = k

  server-Queued :
      (args : List Text) (c : Cli D)
      → Queued c (elim args [ [] ↦ show_server x env c | addr ∷ more ↦ switch_server x addr c ])
  unfolding show_server switch_server println command submit
  server-Queued [] c = nothing c _ refl
  server-Queued (addr ∷ more) c = one (set_server addr) c _ refl

  command-Queued : (m : Command) (c : Cli D) → Queued c (command m c)
  unfolding command submit
  command-Queued m c = one m c _ refl

  quit-Good : (c : Cli D) → Good c (false, command shutdown c)
  unfolding Good command submit
  quit-Good c = (one shutdown c _ refl, inr refl)

  run_words-Good :
      (word : Text) (args : List Text) (c : Cli D) → Good c (run_words x now env word args c)
  unfolding run_words println print_all show_peers show_my_keys purge_peer drop_peer command submit
      set_world
  run_words-Good word args c =
      let is = is_word x now env in
      choose (is "peers" word) c _ _ (stay c _ (nothing c _ refl)) (
        choose (is "alias" word) c _ _
          (stay c _ (
            two_arguments-Queued _ args _ c
              (λ who name. with_peer-Queued who (name_peer x name) c (name_peer-Queued name))))
          (choose (is "mykeys" word) c _ _ (stay c _ (nothing c _ refl)) (
            choose (is "server" word) c _ _ (stay c _ (server-Queued args c)) (
              choose (is "add" word) c _ _
                (stay c _ (two_arguments-Queued _ args _ c (λ k v. add_keys-Queued k v c)))
                (choose (is "connect" word) c _ _
                  (stay c _ (
                    one_argument-Queued _ args _ c
                      (λ who. with_peer-Queued who _ c (λ id. command-Queued (connect id)))))
                  (choose (is "msg" word) c _ _
                    (stay c _ (
                      two_arguments-Queued _ args _ c
                        (λ who t. with_peer-Queued who _ c (λ id. command-Queued (send id t)))))
                    (choose (is "purge" word) c _ _
                      (stay c _ (
                        one_argument-Queued _ args _ c (λ who.
                          with_peer-Queued who (purge_peer x) c
                            (λ id b. one (purge_chat id) b _ refl))))
                      (choose (is "remove" word) c _ _
                        (stay c _ (
                          one_argument-Queued _ args _ c (λ who.
                            with_peer-Queued who (drop_peer x) c
                              (λ id b. one (remove_peer id) b _ refl))))
                        (choose (is "history" word) c _ _
                          (stay c _ (
                            one_argument-Queued _ args _ c
                              (λ who. with_peer-Queued who (show_history x) c show_history-Queued)))
                          (choose (is "help" word || is "?" word) c _ _
                            (stay c _ (nothing c _ refl))
                            (choose (is "quit" word || is "exit" word) c _ _ (quit-Good c) (
                              choose (is "" word) c _ _ (stay c _ (nothing c _ refl))
                                (stay c _ (nothing c _ refl))))))))))))))

  line-Good :
      (words : List Text) (c : Cli D)
      → Good c (elim words as (λ _. Bool × Cli D) [
        | [] ↦ (true, c)
        | word ∷ args ↦ run_words x now env word args c
      ])
  line-Good [] c = stay c c (nothing c c refl)
  line-Good (word ∷ args) c = run_words-Good word args c

  -- Whatever is typed, a line puts at most one command in the queue, behind those there, and takes
  -- none away; and the loop goes on, unless the line has put a shutdown there.
  pub run_line-queue :
      (line : Text) (c : Cli D)
      → let (more, c') = run_line x now env line c in
        (fresh : List Command) × (c'.front.commands ≡ c.front.commands ++ fresh)
        × (length fresh ≤ 1)
        × ((more ≡ true) ⊎ (c'.front.commands ≡ c.front.commands ++ shutdown ∷ []))
  unfolding run_line Good
  run_line-queue line c =
      let (q, e) = line-Good (splitn 3 32 (trim line)) c in (q.fresh, q.appended, q.at_most_one, e)
