-- ===== src/Server/Loops/Fair/Dispatching.antt =====
-- A turn of `main_dispatch_loop` of crates/serverclient/src/lib.rs.
use mathlib.Core.Path.{subst}
use mathlib.Core.List.{append-nil, append_assoc, map-append}
use sechat_client.Base.{
  ◌≡◌, refl, sym, ap, ◌∙◌, inl, inr, true, false, Option, none, some, List, [], ◌∷◌, ◌++◌, map,
  arith, ltb, Bool-cases, Option-cases, length, length-append, ok, err,
}
use sechat_client.Base.Bytes.{Bytes}
use sechat_client.Server.Handlers.{handle_message}
use sechat_client.Server.Loops.{
  Stamp, Pipeline, queue_size, next_message, give_answer, main_dispatch_loop,
}
use sechat_client.Server.Loops.Fair.{dispatcher, able, given_short, Live, Advance}
use sechat_client.Server.Loops.Order.{held, given, Served, handle_one, serve, serve-snoc}
use sechat_client.Server.Services.{Services, World}
use sechat_client.Server.Structs.{ClientToServer, ServerToClient}

module _ {D : Type 0} (x : Services D) (privkey : Bytes) (encode : ServerToClient → Bytes)
    (reads : (m : ServerToClient) → x.server_codec.from_slice (encode m) ≡ some m)
    (writes : (m : ClientToServer) → (b : Bytes) × (x.client_codec.to_vec m ≡ some b))
    (all : List ServerToClient) (t : Served D) where
  pub dispatch_step :
      (stamp : Stamp) (s : Pipeline D)
      → Live x privkey encode all t s
      → Advance x privkey encode all t dispatcher s (main_dispatch_loop x privkey stamp s)
  unfolding main_dispatch_loop give_answer next_message able handle_one
  dispatch_step stamp s l = elim (Bool-cases s.dispatching) [
    | inr off ↦
        subst (Advance x privkey encode all t dispatcher s) (sym (ground (arith, off))) (record {
          live = l;
          gained = inr (
            refl,
            λ h. elim l.dispatches_on [
              | inl on ↦ absurd (ground (arith, on, off))
              | inr (frames, parsed, queue, answer) ↦ absurd (ground (arith, h, queue, answer))
            ],
          );
        })
    | inl on ↦ elim (Option-cases s.answer) [
      | inr (a, answer) ↦ elim (Bool-cases (ltb (length s.out_queue) queue_size)) [
        | inr full ↦
            subst (Advance x privkey encode all t dispatcher s)
              (sym (ground (arith, on, answer, l.writes_on, full)))
              (record { live = l; gained = inr (refl, λ h. absurd (ground (arith, h, full))) })
        | inl free ↦
            let next : main_dispatch_loop x privkey stamp s
                ≡ record s { answer = none; out_queue = s.out_queue ++ a ∷ [] } =
              ground (arith, on, answer, l.writes_on, free) in
            subst (Advance x privkey encode all t dispatcher s) (sym next) (record {
              live = record {
                log = l.log;
                left = l.left;
                coming = l.coming;
                order = l.order;
                same_world = l.same_world;
                same_events = l.same_events;
                same_answers =
                    ap (λ q. s.sent ++ q)
                      (append-nil (s.out_queue ++ a ∷ [])
                        ∙ ap (λ b. s.out_queue ++ given b) (sym answer))
                    ∙ l.same_answers;
                writes_on = l.writes_on;
                held_on = l.held_on;
                reads_on = l.reads_on;
                dispatches_on = inl on;
                room = ground (arith, l.room, answer, length-append s.out_queue (a ∷ []));
              };
              gained = inl (ground (arith, answer, length-append s.out_queue (a ∷ [])));
            })
      ]
      | inl idle ↦ queued s.in_queue refl on idle
    ]
  ]
    where
      queued :
          (q : List ServerToClient)
          → s.in_queue ≡ q
          → s.dispatching ≡ true
          → s.answer ≡ none
          → Advance x privkey encode all t dispatcher s (main_dispatch_loop x privkey stamp s)
      queued [] empty on idle = elim l.reads_on [
        | inl reads_still ↦
            subst (Advance x privkey encode all t dispatcher s)
              (sym (ground (arith, on, idle, empty, reads_still)))
              (record {
                live = l;
                gained = inr (refl, λ h. absurd (ground (arith, h, empty, idle)));
              })
        | inr (frames, parsed) ↦ elim (Bool-cases s.reading) [
          | inl reads_still ↦
              subst (Advance x privkey encode all t dispatcher s)
                (sym (ground (arith, on, idle, empty, reads_still)))
                (record {
                  live = l;
                  gained = inr (refl, λ h. absurd (ground (arith, h, empty, idle)));
                })
          | inr stopped ↦
              let next : main_dispatch_loop x privkey stamp s ≡ record s { dispatching = false } =
                ground (arith, on, idle, empty, stopped) in
              subst (Advance x privkey encode all t dispatcher s) (sym next) (record {
                live = record {
                  log = l.log;
                  left = l.left;
                  coming = l.coming;
                  order = l.order;
                  same_world = l.same_world;
                  same_events = l.same_events;
                  same_answers = l.same_answers;
                  writes_on = l.writes_on;
                  held_on = l.held_on;
                  reads_on = l.reads_on;
                  dispatches_on = inr (frames, parsed, empty, idle);
                  room = l.room;
                };
                gained = inr (refl, λ h. absurd (ground (arith, h, empty, idle)));
              })
        ]
      ]
      queued (m ∷ ms) waiting on idle =
          let (r, w, es) =
            handle_message x stamp.nonce stamp.now stamp.sent privkey m.payload s.world in
          let a = elim r as (λ _. Option ClientToServer) [ ok a ↦ a | err e ↦ none ] in
          let next : main_dispatch_loop x privkey stamp s
              ≡ record s { in_queue = ms; world = w; events = s.events ++ es; answer = a } =
            ground (arith, on, idle, waiting) in
          let before = serve x privkey l.log t in
          let snoc = serve-snoc x privkey l.log stamp m t in
          let handle = λ (v : World D).
            handle_message x stamp.nonce stamp.now stamp.sent privkey m.payload v in
          subst (Advance x privkey encode all t dispatcher s) (sym next) (record {
            live = record {
              log = l.log ++ (stamp, m) ∷ [];
              left = l.left;
              coming = l.coming;
              order =
                  ap (λ q. q ++ (ms ++ (held s.parsed ++ l.left)))
                    (map-append (λ e. e.1) l.log ((stamp, m) ∷ []))
                  ∙ append_assoc (map (λ e. e.1) l.log) (m ∷ []) (ms ++ (held s.parsed ++ l.left))
                  ∙ ap (λ q. map (λ e. e.1) l.log ++ (q ++ (held s.parsed ++ l.left))) (sym waiting)
                  ∙ l.order;
              same_world = ap (λ v. (handle v).1) l.same_world ∙ sym (ap (λ t. t.world) snoc);
              same_events =
                  ap (λ v. s.events ++ (handle v).2) l.same_world
                  ∙ ap (λ q. q ++ (handle before.world).2) l.same_events
                  ∙ sym (ap (λ t. t.events) snoc);
              same_answers =
                  sym (append_assoc s.sent s.out_queue (given a))
                  ∙ ap (λ q. q ++ given a)
                      (ap (λ q. s.sent ++ q)
                          (sym (append-nil s.out_queue)
                            ∙ ap (λ b. s.out_queue ++ given b) (sym idle))
                        ∙ l.same_answers)
                  ∙ ap
                      (λ v. before.answers ++ given (elim (handle v).0 [ ok a ↦ a | err e ↦ none ]))
                      l.same_world
                  ∙ sym (ap (λ t. t.answers) snoc);
              writes_on = l.writes_on;
              held_on = l.held_on;
              reads_on = l.reads_on;
              dispatches_on = inl on;
              room = ground (arith, l.room, waiting, idle, given_short a);
            };
            gained = inl (ground (arith, waiting, idle, given_short a));
          })
