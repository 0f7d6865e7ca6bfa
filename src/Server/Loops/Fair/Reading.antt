-- ===== src/Server/Loops/Fair/Reading.antt =====
-- A turn of `write_loop` and one of `read_loop` of crates/serverclient/src/lib.rs.
use mathlib.Core.Path.{subst}
use mathlib.Core.List.{append_assoc}
use sechat_client.Base.{
  ◌-◌, ◌≡◌, refl, sym, ap, ◌∙◌, inl, inr, true, false, none, some, List, [], ◌∷◌, ◌++◌, map, arith,
  ltb, Bool-cases, Option-cases, length, length-append,
}
use sechat_client.Base.Bytes.{Bytes}
use sechat_client.Server.Connect.{parse_server_message}
use sechat_client.Server.Loops.{
  Pipeline, queue_size, hand_over, next_frame, read_loop, write_next, write_loop,
}
use sechat_client.Server.Loops.Fair.{reader, writer, able, relay_frame, Live, Advance}
use sechat_client.Server.Loops.Order.{held, given, Served}
use sechat_client.Server.Services.{Services}
use sechat_client.Server.Structs.{ClientToServer, ServerToClient}

module _ {D : Type 0} (x : Services D) (privkey : Bytes) (encode : ServerToClient → Bytes)
    (reads : (m : ServerToClient) → x.server_codec.from_slice (encode m) ≡ some m)
    (writes : (m : ClientToServer) → (b : Bytes) × (x.client_codec.to_vec m ≡ some b))
    (all : List ServerToClient) (t : Served D) where
  pub write_step :
      (s : Pipeline D)
      → Live x privkey encode all t s
      → Advance x privkey encode all t writer s (write_loop x privkey s)
  unfolding write_loop write_next able
  write_step s l = go s.out_queue refl
    where
      go :
          (q : List ClientToServer)
          → s.out_queue ≡ q
          → Advance x privkey encode all t writer s (write_loop x privkey s)
      go [] empty =
          subst (Advance x privkey encode all t writer s)
            (sym (ground (arith, l.writes_on, l.held_on, empty)))
            (record { live = l; gained = inr (refl, λ h. absurd (ground (arith, h, empty))) })
      go (m ∷ ms) waiting =
          let next : write_loop x privkey s
              ≡ record s { out_queue = ms; writable = s.writable - 1; sent = s.sent ++ m ∷ [] } =
            ground (arith, l.writes_on, waiting, (writes m).1, l.room) in
          subst (Advance x privkey encode all t writer s) (sym next) (record {
            live = record {
              log = l.log;
              left = l.left;
              coming = l.coming;
              order = l.order;
              same_world = l.same_world;
              same_events = l.same_events;
              same_answers =
                  append_assoc s.sent (m ∷ []) (ms ++ given s.answer)
                  ∙ ap (λ q. s.sent ++ (q ++ given s.answer)) (sym waiting)
                  ∙ l.same_answers;
              writes_on = l.writes_on;
              held_on = l.held_on;
              reads_on = l.reads_on;
              dispatches_on = l.dispatches_on;
              room = ground (arith, l.room, waiting);
            };
            gained = inl (ground (arith, waiting));
          })

  pub read_step :
      (s : Pipeline D)
      → Live x privkey encode all t s
      → Advance x privkey encode all t reader s (read_loop x privkey s)
  unfolding read_loop next_frame hand_over parse_server_message able
  read_step s l = elim (Bool-cases s.reading) [
    | inr off ↦
        subst (Advance x privkey encode all t reader s) (sym (ground (arith, off))) (record {
          live = l;
          gained = inr (
            refl,
            λ h. elim l.reads_on [
              | inl on ↦ absurd (ground (arith, on, off))
              | inr (frames, parsed) ↦ ground (arith, h, frames, parsed)
            ],
          );
        })
    | inl on ↦ elim (Option-cases s.parsed) [
      | inr (m, parsed) ↦
          let running : s.dispatching ≡ true = elim l.dispatches_on [
            | inl runs ↦ runs
            | inr (_, none_parsed, _, _) ↦ absurd (ground (arith, parsed, none_parsed))
          ] in
          elim (Bool-cases (ltb (length s.in_queue) queue_size)) [
            | inr full ↦
                subst (Advance x privkey encode all t reader s)
                  (sym (ground (arith, on, parsed, running, full)))
                  (record { live = l; gained = inr (refl, λ h. absurd (ground (arith, h, full))) })
            | inl free ↦
                let next : read_loop x privkey s
                    ≡ record s { parsed = none; in_queue = s.in_queue ++ m ∷ [] } =
                  ground (arith, on, parsed, running, free) in
                subst (Advance x privkey encode all t reader s) (sym next) (record {
                  live = record {
                    log = l.log;
                    left = l.left;
                    coming = l.coming;
                    order =
                        ap (λ q. map (λ e. e.1) l.log ++ q)
                          (append_assoc s.in_queue (m ∷ []) l.left
                            ∙ ap (λ p. s.in_queue ++ (held p ++ l.left)) (sym parsed))
                        ∙ l.order;
                    same_world = l.same_world;
                    same_events = l.same_events;
                    same_answers = l.same_answers;
                    writes_on = l.writes_on;
                    held_on = l.held_on;
                    reads_on = inl on;
                    dispatches_on = inl running;
                    room = ground (arith, l.room, parsed, length-append s.in_queue (m ∷ []));
                  };
                  gained = inl (ground (arith, parsed, length-append s.in_queue (m ∷ [])));
                })
          ]
      | inl free ↦ on_frames l.left refl on free
    ]
  ]
    where
      on_frames :
          (left : List ServerToClient)
          → l.left ≡ left
          → s.reading ≡ true
          → s.parsed ≡ none
          → Advance x privkey encode all t reader s (read_loop x privkey s)
      on_frames [] e on free =
          let over : s.incoming ≡ [] = l.coming ∙ ap (map (relay_frame encode)) e in
          let next : read_loop x privkey s ≡ record s { reading = false } =
            ground (arith, on, free, over) in
          subst (Advance x privkey encode all t reader s) (sym next) (record {
            live = record {
              log = l.log;
              left = l.left;
              coming = l.coming;
              order = l.order;
              same_world = l.same_world;
              same_events = l.same_events;
              same_answers = l.same_answers;
              writes_on = l.writes_on;
              held_on = l.held_on;
              reads_on = inr (over, free);
              dispatches_on = l.dispatches_on;
              room = l.room;
            };
            gained = inr (refl, λ h. ground (arith, h, over, free));
          })
      on_frames (m ∷ left) e on free =
          let now : s.incoming ≡ relay_frame encode m ∷ map (relay_frame encode) left =
            l.coming ∙ ap (map (relay_frame encode)) e in
          let running : s.dispatching ≡ true = elim l.dispatches_on [
            | inl runs ↦ runs
            | inr (over, _, _, _) ↦ absurd (ground (arith, over, now))
          ] in
          let next : read_loop x privkey s
              ≡ record s { incoming = map (relay_frame encode) left; parsed = some m } =
            ground (arith, on, free, now, reads m) in
          subst (Advance x privkey encode all t reader s) (sym next) (record {
            live = record {
              log = l.log;
              left = left;
              coming = refl;
              order =
                  ap (λ q. map (λ e. e.1) l.log ++ (s.in_queue ++ q))
                    (sym e ∙ ap (λ p. held p ++ l.left) (sym free))
                  ∙ l.order;
              same_world = l.same_world;
              same_events = l.same_events;
              same_answers = l.same_answers;
              writes_on = l.writes_on;
              held_on = l.held_on;
              reads_on = inl on;
              dispatches_on = inl running;
              room = ground (arith, l.room, now, free);
            };
            gained = inl (ground (arith, now, free));
          })
