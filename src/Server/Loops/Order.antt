-- ===== src/Server/Loops/Order.antt =====
-- The order in which the tasks of a connection handle what arrives: `read_loop` and
-- `main_dispatch_loop` of crates/serverclient/src/lib.rs against one loop without queues.
pub mod Schedule
use mathlib.Core.List.{append-nil, append_assoc, map-append}
use sechat_client.Base.{
  ◌≡◌, refl, sym, ap, ◌∙◌, Option, none, some, List, [], ◌∷◌, ◌++◌, map, arith, ok, err,
}
use sechat_client.Base.Bytes.{Bytes}
use sechat_client.P2p.Handshake.{arrived}
use sechat_client.Server.Connect.{Frame, binary, parse_server_message}
use sechat_client.Server.Handlers.{handle_message}
use sechat_client.Server.Loops.{Stamp, Pipeline}
use sechat_client.Server.Services.{Services, World}
use sechat_client.Server.Structs.{ClientToServer, ServerToClient, ServerEvent, disconnected}

abbrev pub Log : Type 0
Log = List (Stamp × ServerToClient)

-- The part of a pipeline that messages of the relay pass through.
pub record Inbound (D : Type 0) : Type 0 where
  pub incoming : List Frame
  pub parsed : Option ServerToClient
  pub in_queue : List ServerToClient
  pub world : World D
  pub events : List ServerEvent

unfoldable pub inbound : {D : Type 0} → Pipeline D → Inbound D
inbound s = record {
  incoming = s.incoming;
  parsed = s.parsed;
  in_queue = s.in_queue;
  world = s.world;
  events = s.events;
}

unfoldable pub without_report : List ServerEvent → List ServerEvent
without_report [] = []
without_report (disconnected ∷ es) = without_report es
without_report (e ∷ es) = e ∷ without_report es

without_report-append :
    (es fs : List ServerEvent) → without_report (es ++ fs) ≡ without_report es ++ without_report fs
unfolding without_report
without_report-append [] fs = refl
without_report-append (e ∷ es) fs = grind (arith, without_report-append es fs)

abbrev pub held : Option ServerToClient → List ServerToClient
held none = []
held (some m) = m ∷ []

abbrev pub given : Option ClientToServer → List ClientToServer
given none = []
given (some a) = a ∷ []

-- What one loop that handles a message when it arrives has done.
pub record Served (D : Type 0) : Type 0 where
  pub world : World D
  pub events : List ServerEvent
  pub answers : List ClientToServer

module _ {D : Type 0} (x : Services D) where
  abbrev pub message_of_frame : Frame → List ServerToClient
  message_of_frame (binary b) = elim (parse_server_message x b) [ ok m ↦ m ∷ [] | err e ↦ [] ]
  message_of_frame _ = []

  unfoldable pub messages_of_frames : List Frame → List ServerToClient
  messages_of_frames [] = []
  messages_of_frames (f ∷ fs) = message_of_frame f ++ messages_of_frames fs

  messages_of_frames-append :
      (fs gs : List Frame)
      → messages_of_frames (fs ++ gs) ≡ messages_of_frames fs ++ messages_of_frames gs
  unfolding messages_of_frames
  messages_of_frames-append [] gs = refl
  messages_of_frames-append (f ∷ fs) gs =
      rw (messages_of_frames-append fs gs)
        (sym (append_assoc (message_of_frame f) (messages_of_frames fs) (messages_of_frames gs)))

module _ {D : Type 0} (x : Services D) (privkey : Bytes) where
  unfoldable pub handle_one : Stamp → ServerToClient → Served D → Served D
  handle_one stamp m s =
      let (r, w, es) =
        handle_message x stamp.nonce stamp.now stamp.sent privkey m.payload s.world in
      record {
        world = w;
        events = s.events ++ es;
        answers = s.answers ++ given (elim r [ ok a ↦ a | err e ↦ none ]);
      }

  unfoldable pub serve : Log → Served D → Served D
  serve [] s = s
  serve ((stamp, m) ∷ log) s = serve log (handle_one stamp m s)

  pub serve-snoc :
      (log : Log) (stamp : Stamp) (m : ServerToClient) (s : Served D)
      → serve (log ++ (stamp, m) ∷ []) s ≡ handle_one stamp m (serve log s)
  unfolding serve
  serve-snoc [] stamp m s = refl
  serve-snoc ((st, n) ∷ log) stamp m s = serve-snoc log stamp m (handle_one st n s)

  -- `s` is reached from `s₀` after the messages in `log` went through the handler, in that order.
  pub record InOrder (s₀ s : Inbound D) : Type 0 where
    pub log : Log
    pub consumed : List Frame
    pub arrived : s₀.incoming ≡ consumed ++ s.incoming
    pub ordered :
        map (λ e. e.1) log ++ (s.in_queue ++ held s.parsed)
        ≡ (s₀.in_queue ++ held s₀.parsed) ++ messages_of_frames x consumed
    pub same_world :
        s.world ≡ (serve log (record { world = s₀.world; events = s₀.events; answers = [] })).world
    pub same_events :
        without_report s.events
        ≡ without_report
            (serve log (record { world = s₀.world; events = s₀.events; answers = [] })).events

  module _ (s₀ : Inbound D) where
    logged :
        (s : Inbound D)
        → s.parsed ≡ none
        → (o : InOrder s₀ s)
        → map (λ e. e.1) o.log ++ s.in_queue
          ≡ (s₀.in_queue ++ held s₀.parsed) ++ messages_of_frames x o.consumed
    logged s e o =
        ap (λ l. map (λ e. e.1) o.log ++ l)
          (sym (append-nil s.in_queue) ∙ ap (λ p. s.in_queue ++ held p) (sym e))
        ∙ o.ordered

    pub frame_read :
        (f : Frame) (fs : List Frame) (p : Option ServerToClient) (s : Inbound D)
        → s.incoming ≡ f ∷ fs
        → s.parsed ≡ none
        → held p ≡ message_of_frame x f
        → InOrder s₀ s
        → InOrder s₀ (record s { incoming = fs; parsed = p })
    unfolding messages_of_frames
    frame_read f fs p s e empty held_now o = record {
      log = o.log;
      consumed = o.consumed ++ f ∷ [];
      arrived = o.arrived ∙ ap (λ l. o.consumed ++ l) e ∙ sym (append_assoc o.consumed (f ∷ []) fs);
      ordered =
          sym (append_assoc (map (λ e. e.1) o.log) s.in_queue (held p))
          ∙ ap (λ l. l ++ held p) (logged s empty o)
          ∙ append_assoc (s₀.in_queue ++ held s₀.parsed) (messages_of_frames x o.consumed) (held p)
          ∙ ap (λ l. (s₀.in_queue ++ held s₀.parsed) ++ (messages_of_frames x o.consumed ++ l))
              (held_now ∙ sym (append-nil (message_of_frame x f)))
          ∙ ap (λ l. (s₀.in_queue ++ held s₀.parsed) ++ l)
              (sym (messages_of_frames-append x o.consumed (f ∷ [])));
      same_world = o.same_world;
      same_events = o.same_events;
    }

    pub handed_over :
        (m : ServerToClient) (s : Inbound D)
        → s.parsed ≡ some m
        → InOrder s₀ s
        → InOrder s₀ (record s { in_queue = s.in_queue ++ m ∷ []; parsed = none })
    handed_over m s e o = record {
      log = o.log;
      consumed = o.consumed;
      arrived = o.arrived;
      ordered =
          ap (λ l. map (λ e. e.1) o.log ++ l)
            (append-nil (s.in_queue ++ m ∷ []) ∙ ap (λ p. s.in_queue ++ held p) (sym e))
          ∙ o.ordered;
      same_world = o.same_world;
      same_events = o.same_events;
    }

    pub reported_end :
        (s : Inbound D)
        → InOrder s₀ s
        → InOrder s₀ (record s { events = s.events ++ disconnected ∷ [] })
    unfolding without_report
    reported_end s o = record {
      log = o.log;
      consumed = o.consumed;
      arrived = o.arrived;
      ordered = o.ordered;
      same_world = o.same_world;
      same_events =
          without_report-append s.events (disconnected ∷ [])
          ∙ append-nil (without_report s.events)
          ∙ o.same_events;
    }

    pub handled :
        (stamp : Stamp) (m : ServerToClient) (ms : List ServerToClient) (s : Inbound D)
        → s.in_queue ≡ m ∷ ms
        → InOrder s₀ s
        → let (_, w, es) =
            handle_message x stamp.nonce stamp.now stamp.sent privkey m.payload s.world in
          InOrder s₀ (record s { in_queue = ms; world = w; events = s.events ++ es })
    unfolding handle_one
    handled stamp m ms s e o =
        let served = serve o.log (record { world = s₀.world; events = s₀.events; answers = [] }) in
        let snoc =
          serve-snoc o.log stamp m
            (record { world = s₀.world; events = s₀.events; answers = [] }) in
        let handle =
          λ (w : World D). handle_message x stamp.nonce stamp.now stamp.sent privkey m.payload w in
        record {
          log = o.log ++ (stamp, m) ∷ [];
          consumed = o.consumed;
          arrived = o.arrived;
          ordered =
              ap (λ l. l ++ (ms ++ held s.parsed)) (map-append (λ e. e.1) o.log ((stamp, m) ∷ []))
              ∙ append_assoc (map (λ e. e.1) o.log) (m ∷ []) (ms ++ held s.parsed)
              ∙ ap (λ l. map (λ e. e.1) o.log ++ (l ++ held s.parsed)) (sym e)
              ∙ o.ordered;
          same_world = ap (λ w. (handle w).1) o.same_world ∙ sym (ap (λ t. t.world) snoc);
          same_events =
              without_report-append s.events (handle s.world).2
              ∙ ap (λ l. l ++ without_report (handle s.world).2) o.same_events
              ∙ ap (λ w. without_report served.events ++ without_report (handle w).2) o.same_world
              ∙ sym (without_report-append served.events (handle served.world).2)
              ∙ sym (ap (λ t. without_report t.events) snoc);
        }
