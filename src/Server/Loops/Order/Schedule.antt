-- ===== src/Server/Loops/Order/Schedule.antt =====
-- Every schedule of the tasks that `run_client` of crates/serverclient/src/lib.rs spawns.
use mathlib.Core.Path.{subst}
use mathlib.Core.List.{append-nil}
use sechat_client.Base.{
  ◌≡◌, refl, sym, inl, inr, ◌&&◌, ◌||◌, none, some, List, [], ◌∷◌, arith, ltb, Bool-cases,
  Option-cases, length, Result-cases,
}
use sechat_client.Base.Bytes.{Bytes}
use sechat_client.Base.Int.{ℤ}
use sechat_client.Crypto.Types.{PeerPublic}
use sechat_client.Server.Connect.{
  Frame, binary, close_frame, other_frame, read_error, parse_server_message,
}
use sechat_client.Server.Loops.{
  Stamp, Pipeline, queue_size, Turn, read, dispatch, write, refresh_presence, client_sends,
  client_leaves, report, hand_over, next_frame, read_loop, next_message, give_answer,
  main_dispatch_loop, write_next, write_loop, start_refresh, announce_next, refresh_next,
  presence_refresh_loop, turn, run_turns,
}
use sechat_client.Server.Loops.Order.{
  Inbound, inbound, messages_of_frames, serve, InOrder, frame_read, handed_over, reported_end,
  handled,
}
use sechat_client.Server.Services.{Services}
use sechat_client.Server.Structs.{ClientToServer, ServerToClient}

module _ {D : Type 0} (x : Services D) (privkey : Bytes) where
  inbound-write_loop : (s : Pipeline D) → inbound (write_loop x privkey s) ≡ inbound s
  unfolding inbound write_loop write_next
  inbound-write_loop s = ground arith

  inbound-announce_next :
      (now : ℤ) (who : PeerPublic) (rest : List PeerPublic) (s : Pipeline D)
      → inbound (announce_next x privkey now who rest s) ≡ inbound s
  unfolding inbound announce_next
  inbound-announce_next now who rest s = ground arith

  inbound-start_refresh :
      (t : ℤ) (s : Pipeline D) → inbound (start_refresh x privkey t s) ≡ inbound s
  unfolding inbound start_refresh
  inbound-start_refresh t s = ground arith

  inbound-refresh_next :
      (t now : ℤ) (left : List PeerPublic) (s : Pipeline D)
      → inbound (refresh_next x privkey t now left s) ≡ inbound s
  unfolding refresh_next
  inbound-refresh_next t now [] s = inbound-start_refresh t s
  inbound-refresh_next t now (who ∷ rest) s = inbound-announce_next now who rest s

  inbound-presence_refresh_loop :
      (t now : ℤ) (s : Pipeline D) → inbound (presence_refresh_loop x privkey t now s) ≡ inbound s
  unfolding presence_refresh_loop
  inbound-presence_refresh_loop t now s =
      ground (arith, inbound-refresh_next t now s.refresh.left s)

  module _ (s₀ : Inbound D) where
    abbrev Good : Pipeline D → Type 0
    Good s = InOrder x privkey s₀ (inbound s)

    moved : (t : Pipeline D) {i : Inbound D} → inbound t ≡ i → InOrder x privkey s₀ i → Good t
    moved t e o = subst (λ i. InOrder x privkey s₀ i) (sym e) o

    next_frame-InOrder :
        (fs : List Frame) (s : Pipeline D)
        → s.incoming ≡ fs
        → s.parsed ≡ none
        → Good s
        → Good (next_frame x privkey fs s)
    unfolding next_frame inbound
    next_frame-InOrder [] s e empty o = o
    next_frame-InOrder (binary b ∷ fs) s e empty o =
        elim (Result-cases (parse_server_message x b)) [
          | inl (m, h) ↦ moved (next_frame x privkey (binary b ∷ fs) s) (ground (arith, h)) (
              frame_read x privkey s₀ (binary b) fs (some m) (inbound s) e empty (ground (arith, h))
                o)
          | inr (r, h) ↦
              moved (next_frame x privkey (binary b ∷ fs) s) (ground (arith, h, empty)) (
                frame_read x privkey s₀ (binary b) fs none (inbound s) e empty (ground (arith, h))
                  o)
        ]
    next_frame-InOrder (close_frame ∷ fs) s e empty o =
        moved (next_frame x privkey (close_frame ∷ fs) s) (ground (arith, empty))
          (frame_read x privkey s₀ close_frame fs none (inbound s) e empty refl o)
    next_frame-InOrder (other_frame ∷ fs) s e empty o =
        moved (next_frame x privkey (other_frame ∷ fs) s) (ground (arith, empty))
          (frame_read x privkey s₀ other_frame fs none (inbound s) e empty refl o)
    next_frame-InOrder (read_error b ∷ fs) s e empty o =
        moved (next_frame x privkey (read_error b ∷ fs) s) (ground (arith, empty))
          (frame_read x privkey s₀ (read_error b) fs none (inbound s) e empty refl o)

    hand_over-InOrder :
        (m : ServerToClient) (s : Pipeline D)
        → s.parsed ≡ some m
        → Good s
        → Good (hand_over x privkey m s)
    unfolding hand_over inbound
    hand_over-InOrder m s e o =
        elim (Bool-cases (s.dispatching && ltb (length s.in_queue) queue_size)) [
          | inl h ↦
              moved (hand_over x privkey m s) (ground (arith, h))
                (handed_over x privkey s₀ m (inbound s) e o)
          | inr h ↦ moved (hand_over x privkey m s) (ground (arith, h)) o
        ]

    read_loop-InOrder : (s : Pipeline D) → Good s → Good (read_loop x privkey s)
    unfolding read_loop
    read_loop-InOrder s o = elim (Bool-cases s.reading) [
      | inr off ↦ moved (read_loop x privkey s) (ground (arith, off)) o
      | inl on ↦ elim (Option-cases s.parsed) [
        | inl h ↦
            moved (read_loop x privkey s) (ground (arith, on, h))
              (next_frame-InOrder s.incoming s refl h o)
        | inr (m, h) ↦
            moved (read_loop x privkey s) (ground (arith, on, h)) (hand_over-InOrder m s h o)
      ]
    ]

    next_message-InOrder :
        (stamp : Stamp) (q : List ServerToClient) (s : Pipeline D)
        → s.in_queue ≡ q
        → Good s
        → Good (next_message x privkey stamp q s)
    unfolding next_message inbound
    next_message-InOrder stamp [] s e o = moved (next_message x privkey stamp [] s) (ground arith) o
    next_message-InOrder stamp (m ∷ ms) s e o = handled x privkey s₀ stamp m ms (inbound s) e o

    inbound-give_answer :
        (a : ClientToServer) (s : Pipeline D) → inbound (give_answer x privkey a s) ≡ inbound s
    unfolding inbound give_answer
    inbound-give_answer a s = ground arith

    main_dispatch_loop-InOrder :
        (stamp : Stamp) (s : Pipeline D) → Good s → Good (main_dispatch_loop x privkey stamp s)
    unfolding main_dispatch_loop
    main_dispatch_loop-InOrder stamp s o = elim (Bool-cases s.dispatching) [
      | inr off ↦ moved (main_dispatch_loop x privkey stamp s) (ground (arith, off)) o
      | inl on ↦ elim (Option-cases s.answer) [
        | inl h ↦
            moved (main_dispatch_loop x privkey stamp s) (ground (arith, on, h))
              (next_message-InOrder stamp s.in_queue s refl o)
        | inr (a, h) ↦
            moved (main_dispatch_loop x privkey stamp s)
              (ground (arith, on, h, inbound-give_answer a s)) o
      ]
    ]

    turn-InOrder : (t : Turn) (s : Pipeline D) → Good s → Good (turn x privkey t s)
    unfolding turn inbound
    turn-InOrder read s o = read_loop-InOrder s o
    turn-InOrder (dispatch stamp) s o = main_dispatch_loop-InOrder stamp s o
    turn-InOrder write s o = moved (write_loop x privkey s) (inbound-write_loop s) o
    turn-InOrder (refresh_presence t now) s o =
        moved (presence_refresh_loop x privkey t now s) (inbound-presence_refresh_loop t now s) o
    turn-InOrder (client_sends m) s o = moved (turn x privkey (client_sends m) s) (ground arith) o
    turn-InOrder client_leaves s o = o
    turn-InOrder report s o =
        elim (Bool-cases
          ((s.reading && s.dispatching && s.writing && s.refreshing) || s.reported)) [
            | inl h ↦ moved (turn x privkey report s) (ground (arith, h)) o
            | inr h ↦
                moved (turn x privkey report s) (ground (arith, h))
                  (reported_end x privkey s₀ (inbound s) o)
          ]

    run_turns_keeps : (ts : List Turn) (s : Pipeline D) → Good s → Good (run_turns x privkey ts s)
    unfolding run_turns
    run_turns_keeps [] s o = o
    run_turns_keeps (t ∷ ts) s o = run_turns_keeps ts (turn x privkey t s) (turn-InOrder t s o)

  -- Whatever the turns of the reader, the dispatcher, the writer, the presence loop, the event loop
  -- and the reporting task, and whichever of them end or wait for room in a queue: there are a log
  -- of handled messages and a part of the frames that has been read, such that the log followed by
  -- the queue and the message in the reader's hand is what was waiting before followed by the
  -- messages in the frames that were read; the state of the client is that of one loop that handles
  -- the log message by message; and so are the events, but for reports of the end.
  pub run_turns-InOrder :
      (ts : List Turn) (s : Pipeline D)
      → InOrder x privkey (inbound s) (inbound (run_turns x privkey ts s))
  unfolding messages_of_frames serve
  run_turns-InOrder ts s = run_turns_keeps (inbound s) ts s (record {
    log = [];
    consumed = [];
    arrived = refl;
    ordered = sym (append-nil _);
    same_world = refl;
    same_events = refl;
  })
