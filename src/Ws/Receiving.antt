-- ===== src/Ws/Receiving.antt =====
-- telephonist/wsclient.go: what the client does with a message of the server.
use mathlib.Core.Path.{subst}
use telephonist_agent.Base.{
  ◌≢◌, >>=-eq-done, inl, inr, ◌⊎◌, ℕ, Bytes, codes, List, [], ◌∷◌, Option, none, some, Map, lookup,
  Bytes-discrete, ite, Go, done, ◌>>=◌, ◌++◌, ◌≡◌, arith,
}
use telephonist_agent.Errors.{Error, message}
use telephonist_agent.Task.{Event, DefinedTask}
use telephonist_agent.Ws.{WsClient, preparing, send, on_greetings}
use telephonist_agent.Ws.Lifecycle.{Host, on_introduction}
use telephonist_agent.Ws.Subscriptions.{IsSynced, on_greetings-IsSynced}

-- `iRawMesage`
pub record RawMessage : Type 0 where
  pub message_type : Bytes
  pub raw_data : Bytes

-- `json.Unmarshal` into each of the types, and its error for a target that is no pointer.
pub record Decoders : Type 0 where
  pub error_data : Bytes → Option Error
  pub event : Bytes → Event ⊎ Error
  pub tasks : Bytes → List DefinedTask ⊎ Error
  pub task : Bytes → DefinedTask ⊎ Error
  pub task_id : Bytes → ℕ ⊎ Error
  pub introduction_data : Bytes → Option Error
  pub not_a_pointer : Error

-- What the client passes on: an event to a channel.
pub data Report : Type 0 where
  offered : ℕ → Event → Report

-- `OnTasks`, `OnTask` and `OnTaskRemoved` of the client's options, which may be nil. Each runs inside the
-- handling of a message, with the client that it is handled on.
pub record Callbacks : Type 0 where
  pub on_tasks : Option (List DefinedTask → WsClient → Go WsClient)
  pub on_task : Option (DefinedTask → WsClient → Go WsClient)
  pub on_task_removed : Option (ℕ → WsClient → Go WsClient)

abbrev Handled : Type 0
Handled = Go (WsClient × List Report × Option Error)

unfoldable pub offers : Event → Map ℕ ℕ → List Report
offers d [] = []
offers d ((id, ch) ∷ rest) = offered ch d ∷ offers d rest

-- `onNewEvent`: each channel of the event is offered it, for a while.
unfoldable pub on_new_event : Event → WsClient → List Report
unfolding offers
on_new_event d c = elim (lookup Bytes-discrete d.event_key c.event_channels) [
  | none ↦ []
  | some channels ↦ offers d channels
]

-- A new event, decoded or not.
arrived : WsClient → Event ⊎ Error → Handled
arrived c (inl d) = done (c, on_new_event d c, none)
arrived c (inr err) = done (c, [], some err)

-- `onNewTasks`, `onNewTask` and `onTaskRemoved`: the callback, if there is one.
invoke : {A : Type 0} → Option (A → WsClient → Go WsClient) → A → WsClient → Go WsClient
invoke none a c = done c
invoke (some callback) a c = callback a c

passed : {A : Type 0} → Option (A → WsClient → Go WsClient) → WsClient → A ⊎ Error → Handled
unfolding invoke
passed callback c (inl a) = do c' ← invoke callback a c; done (c', [], none)
passed callback c (inr err) = done (c, [], some err)

introduced : Host → WsClient → Option Error → Handled
introduced host c (some err) = done (c, [], some err)
introduced host c none = do c' ← on_introduction host c; done (c', [], none)

greeted : WsClient → Handled
greeted c = do c' ← on_greetings c; done (c', [], none)

-- `handleMessage`
unfoldable pub handle_message : Decoders → Host → Callbacks → RawMessage → WsClient → Handled
unfolding arrived passed introduced greeted
handle_message decode host callbacks m c =
    let is = λ (t : Bytes). Bytes-discrete m.message_type t in
    ite (is (codes "error")) (done (c, [], decode.error_data m.raw_data)) (
      ite (is (codes "new_event")) (arrived c (decode.event m.raw_data)) (
        ite (is (codes "tasks")) (passed callbacks.on_tasks c (decode.tasks m.raw_data)) (
          ite (is (codes "task_updated")) (passed callbacks.on_task c (decode.task m.raw_data)) (
            ite (is (codes "task_removed"))
              (passed callbacks.on_task_removed c (decode.task_id m.raw_data))
              (ite (is (codes "introduction"))
                (introduced host c (decode.introduction_data m.raw_data))
                (ite (is (codes "bound_to_sequences")) (done (c, [], some decode.not_a_pointer)) (
                  ite (is (codes "greetings")) (greeted c) (
                    ite (is (codes "logs_sent")) (done (c, [], none)) (
                      done (
                        c,
                        [],
                        some (message (codes "received unknown message: " ++ m.message_type)),
                      ))))))))))

-- The connection is not being prepared, and the server holds a subscription to just the events that have
-- an event channel.
pub record IsSettled (c : WsClient) : Type 0 where
  pub synced : IsSynced c
  pub prepared : c.state ≢ preparing

-- A callback, if it is there, leaves a client settled that is so.
abbrev pub Keeps : {A : Type 0} → Option (A → WsClient → Go WsClient) → Type 0
Keeps none = Unit {0}
Keeps {A} (some f) = (a : A) (c c' : WsClient) → IsSettled c → f a c ≡ done c' → IsSettled c'

passed-IsSettled :
    {A : Type 0} (f : Option (A → WsClient → Go WsClient)) (c c' : WsClient) (x : A ⊎ Error)
    (reports : List Report) (err : Option Error)
    → Keeps f
    → IsSettled c
    → passed f c x ≡ done (c', reports, err)
    → IsSettled c'
unfolding passed invoke
passed-IsSettled f c c' (inr e) reports err keeps v h = subst IsSettled (ground arith) v
passed-IsSettled none c c' (inl a) reports err keeps v h = subst IsSettled (ground arith) v
passed-IsSettled (some g) c c' (inl a) reports err keeps v h =
    let (c1, called, same) =
      >>=-eq-done {B = WsClient × List Report × Option Error} (g a c) (λ c1. done (c1, [], none))
        {b = (c', reports, err)} h in
    subst IsSettled (ground arith) (keeps a c c1 v called)

arrived-IsSettled :
    (c c' : WsClient) (x : Event ⊎ Error) (reports : List Report) (err : Option Error)
    → IsSettled c
    → arrived c x ≡ done (c', reports, err)
    → IsSettled c'
unfolding arrived
arrived-IsSettled c c' (inl d) reports err v h = subst IsSettled (ground arith) v
arrived-IsSettled c c' (inr e) reports err v h = subst IsSettled (ground arith) v

introduced-IsSettled :
    (host : Host) (c c' : WsClient) (x : Option Error) (reports : List Report) (err : Option Error)
    → IsSettled c
    → introduced host c x ≡ done (c', reports, err)
    → IsSettled c'
unfolding introduced on_introduction
introduced-IsSettled host c c' (some e) reports err v h = subst IsSettled (ground arith) v
introduced-IsSettled host c c' none reports err v h =
    let late = v.prepared in subst IsSettled (ground (arith, late)) v

on_greetings-prepared :
    (c c1 : WsClient) → c.state ≢ preparing → on_greetings c ≡ done c1 → c1.state ≢ preparing
unfolding on_greetings send
on_greetings-prepared c c1 n sent e = n (ground arith)

-- After the answer to the server's greeting, a client whose connection is not being prepared is settled,
-- whatever was sent before.
greeted-IsSettled :
    (c c' : WsClient) (reports : List Report) (err : Option Error)
    → c.state ≢ preparing
    → greeted c ≡ done (c', reports, err)
    → IsSettled c'
unfolding greeted
greeted-IsSettled c c' reports err n h =
    let (c1, sent, same) =
      >>=-eq-done {B = WsClient × List Report × Option Error} (on_greetings c)
        (λ c1. done (c1, [], none)) {b = (c', reports, err)} h in
    let v : IsSettled c1 = record {
      synced = on_greetings-IsSynced c c1 sent;
      prepared = on_greetings-prepared c c1 n sent;
    } in
    subst IsSettled (ground arith) v

ite-both : {A P : Type 0} (d : Dec P) (Q : A → Type 0) (a b : A) → Q a → Q b → Q (ite d a b)
ite-both (yes p) Q a b x y = x
ite-both (no p) Q a b x y = y

-- If the client is settled and the callbacks leave such a client so, the handling of any message that
-- returns does.
pub handle_message-IsSettled :
    (decode : Decoders) (host : Host) (callbacks : Callbacks) (m : RawMessage) (c c' : WsClient)
    (reports : List Report) (err : Option Error)
    → Keeps callbacks.on_tasks
    → Keeps callbacks.on_task
    → Keeps callbacks.on_task_removed
    → IsSettled c
    → handle_message decode host callbacks m c ≡ done (c', reports, err)
    → IsSettled c'
unfolding handle_message
handle_message-IsSettled decode host callbacks m c c' reports err k1 k2 k3 v =
    let Q : Handled → Type 0 = λ x. x ≡ done (c', reports, err) → IsSettled c' in
    let same : (rs : List Report) (e : Option Error) → Q (done (c, rs, e)) =
      λ rs e h. subst IsSettled (ground arith) v in
    let is = λ (t : Bytes). Bytes-discrete m.message_type t in
    ite-both (is (codes "error")) Q _ _ (same [] _) (
      ite-both (is (codes "new_event")) Q _ _ (arrived-IsSettled c c' _ reports err v) (
        ite-both (is (codes "tasks")) Q _ _ (passed-IsSettled _ c c' _ reports err k1 v) (
          ite-both (is (codes "task_updated")) Q _ _ (passed-IsSettled _ c c' _ reports err k2 v) (
            ite-both (is (codes "task_removed")) Q _ _ (passed-IsSettled _ c c' _ reports err k3 v)
              (ite-both (is (codes "introduction")) Q _ _
                (introduced-IsSettled host c c' _ reports err v)
                (ite-both (is (codes "bound_to_sequences")) Q _ _ (same [] _) (
                  ite-both (is (codes "greetings")) Q _ _
                    (greeted-IsSettled c c' reports err v.prepared)
                    (ite-both (is (codes "logs_sent")) Q _ _ (same [] _) (same [] _)))))))))
