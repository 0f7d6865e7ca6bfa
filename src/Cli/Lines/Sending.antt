-- ===== src/Cli/Lines/Sending.antt =====
-- The command `msg` of crates/client/src/bin/sechat-cli.rs.
use mathlib.Core.List.{append-nil}
use sechat_client.Base.{
  ◌≡◌, refl, ◌≢◌, inl, inr, true, Option, none, some, [], ◌∷◌, ◌++◌, arith, Option-cases,
}
use sechat_client.Base.Bytes.{Text, text, bytes_eq}
use sechat_client.Base.Int.{ℤ}
use sechat_client.Base.Strings.{split_once, trim, splitn}
use sechat_client.Cli.{Cli, println, command}
use sechat_client.Cli.Actions.{no_such_peer, set_world, with_peer}
use sechat_client.Cli.Lines.{is_word, two_arguments, run_words, run_line}
use sechat_client.Client.Facade.{submit, resolve_peer}
use sechat_client.Client.Types.{send}
use sechat_client.Server.Services.{Services}

abbrev pub NoSpace : Text → Type 0
NoSpace [] = Unit
NoSpace (c ∷ cs) = (c ≢ 32) × NoSpace cs

split_once-NoSpace : (a b : Text) → NoSpace a → split_once 32 (a ++ 32 ∷ b) ≡ some (a, b)
unfolding split_once
split_once-NoSpace [] b h = refl
split_once-NoSpace (c ∷ a) b (h, t) = ground (arith, split_once-NoSpace a b t)

splitn-three :
    (a b c : Text) → NoSpace a → NoSpace b → splitn 3 32 (a ++ 32 ∷ (b ++ 32 ∷ c)) ≡ a ∷ b ∷ c ∷ []
unfolding splitn
splitn-three a b c ha hb =
    ground (arith, split_once-NoSpace a (b ++ 32 ∷ c) ha, split_once-NoSpace b c hb)

msg-NoSpace : NoSpace (text "msg")
unfolding text
msg-NoSpace = (omega arith, (omega arith, (omega arith, tt)))

module _ {D : Type 0} (x : Services D) (now : ℤ) (env : Option Text) where
  msg_words :
      (query t : Text) (c : Cli D)
      → run_words x now env (text "msg") (query ∷ t ∷ []) c
        ≡ (true, with_peer x now query (λ id c. command (send id t) c) c)
  unfolding run_words is_word bytes_eq text two_arguments
  msg_words query t c = refl

  -- A line that is, less the white space around it, `msg`, a query without spaces and a message,
  -- with one space after each but the last. If the query resolves to a peer, the message goes into
  -- the queue for this peer, whatever it contains, behind the commands there, and nothing is
  -- printed; if not, the queue stays as it is, and a line says so. The loop goes on in either case.
  pub run_line-msg :
      (line query t : Text) (c : Cli D)
      → NoSpace query
      → trim line ≡ text "msg" ++ 32 ∷ (query ++ 32 ∷ t)
      → let found = (resolve_peer x now query c.front.world).0 in
        let (more, c') = run_line x now env line c in
        (more ≡ true)
        × (c'.front.commands
            ≡ c.front.commands ++ elim found [ some id ↦ send id t ∷ [] | none ↦ [] ])
        × (c'.printed ≡ c.printed ++ elim found [ some id ↦ [] | none ↦ no_such_peer ∷ [] ])
  unfolding run_line with_peer command println set_world submit
  run_line-msg line query t c h e =
      let words : splitn 3 32 (trim line) ≡ text "msg" ∷ query ∷ t ∷ [] =
        rw e (splitn-three (text "msg") query t msg-NoSpace h) in
      let ran : run_line x now env line c
          ≡ (true, with_peer x now query (λ id c. command (send id t) c) c) =
        ground (arith, words, msg_words query t c) in
      rw ran (elim (Option-cases (resolve_peer x now query c.front.world).0) [
        | inl none_is ↦ ground (arith, none_is, append-nil c.front.commands)
        | inr (id, found) ↦ ground (arith, found, append-nil c.printed)
      ])
