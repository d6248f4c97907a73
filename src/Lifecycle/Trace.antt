-- ===== src/Lifecycle/Trace.antt =====
-- The order of events that an observer of a lifecycle can rely on.
use openclaw_rust_node.Base.{
  ℕ, String, Bool, true, false, ◌≡◌, refl, Option, List, [], ◌∷◌, ◌++◌, saturating_add,
}
use openclaw_rust_node.Json.{Json}
use openclaw_rust_node.Client.{ClientError}
use openclaw_rust_node.Reconnect.Classify.{ReconnectPause}
use openclaw_rust_node.Reconnect.Policy.{
  ReconnectAction, keep_session, retry_after, retry_with_stored_device_token_after, pause,
  after_failure,
}
use openclaw_rust_node.Lifecycle.Events.{
  ClientErrorClass, RuntimeErrorClass, DisconnectReason, client, runtime, runtime_ended, shutdown,
  LifecycleEvent, connecting, connected, ready, disconnected, backing_off, paused, stopped,
}
use openclaw_rust_node.Lifecycle.{
  NodeLifecycle, Verdict, goes_on, stops, pauses, SessionEnd, shut_down, client_failed, saturated,
  task_failed, ended, Attempt, shut_down_connecting, connect_failed, session_opened,
  backoff_or_stop, handle_action, handle_runtime_failure, handle_client_failure, end_session,
  run_attempt, connected_event, Round, continue, run,
}

-- What an observer knows after an event. `resting n` is before the next attempt after the n-th.
pub data Phase : Type 0 where
  resting trying greeted serving : ℕ → Phase
  lost : ℕ → DisconnectReason → Phase
  waiting : ℕ → Phase
  over : Phase
  halted : ReconnectPause → Phase

-- The events that may follow.
pub data Step : Phase → LifecycleEvent → Phase → Type 0 where
  try : (n : ℕ) → Step (resting n) (connecting (saturating_add n 1)) (trying (saturating_add n 1))
  retry : (n : ℕ) → Step (waiting n) (connecting (saturating_add n 1)) (trying (saturating_add n 1))
  restart :
      (n : ℕ)
      → Step (lost n runtime_ended) (connecting (saturating_add n 1)) (trying (saturating_add n 1))
  greet : (n : ℕ) (p : Option ℕ) (v : Option String) → Step (trying n) (connected n p v) (greeted n)
  serve : (n : ℕ) → Step (greeted n) (ready n) (serving n)
  refuse :
      (n : ℕ) (c : ClientErrorClass)
      → Step (trying n) (disconnected n (client c)) (lost n (client c))
  lose : (n : ℕ) (r : DisconnectReason) → Step (serving n) (disconnected n r) (lost n r)
  wait_client :
      (n d : ℕ) (c : ClientErrorClass)
      → Step (lost n (client c)) (backing_off n d (client c)) (waiting n)
  wait_runtime :
      (n d : ℕ) (c : RuntimeErrorClass)
      → Step (lost n (runtime c)) (backing_off n d (runtime c)) (waiting n)
  give_up :
      (n : ℕ) (c : ClientErrorClass) (w : ReconnectPause)
      → Step (lost n (client c)) (paused n w) (halted w)
  cancel : (n : ℕ) → Step (trying n) (stopped n true) over
  interrupt : (n : ℕ) → Step (waiting n) (stopped n true) over
  finish : (n : ℕ) (drained : Bool) → Step (lost n shutdown) (stopped n drained) over

pub data Steps : Phase → List LifecycleEvent → Phase → Type 0 where
  here : (p : Phase) → Steps p [] p
  then_ :
      {p q r : Phase} {e : LifecycleEvent} {es : List LifecycleEvent}
      → Step p e q
      → Steps q es r
      → Steps p (e ∷ es) r

Steps-append :
    {p q r : Phase} {es fs : List LifecycleEvent}
    → Steps p es q
    → Steps q fs r
    → Steps p (es ++ fs) r
Steps-append (here p) t = t
Steps-append (then_ s t) u = then_ s (Steps-append t u)

-- The phases in which the attempt after the n-th may begin.
pub data MayTry : Phase → ℕ → Type 0 where
  rested : (n : ℕ) → MayTry (resting n) n
  waited : (n : ℕ) → MayTry (waiting n) n
  restarted : (n : ℕ) → MayTry (lost n runtime_ended) n

MayTry-connects :
    {p : Phase} {n : ℕ}
    → MayTry p n
    → Step p (connecting (saturating_add n 1)) (trying (saturating_add n 1))
MayTry-connects (rested n) = try n
MayTry-connects (waited n) = retry n
MayTry-connects (restarted n) = restart n

-- The phase that fits a verdict after the n-th attempt.
abbrev pub Fits : Verdict → ℕ → Phase → Type 0
Fits goes_on n q = MayTry q n
Fits stops n q = q ≡ over
Fits (pauses w) n q = q ≡ halted w

-- Events that lead from a phase to one that fits the verdict.
abbrev Follows : Phase → ℕ → List LifecycleEvent → Verdict → Type 0
Follows p n es v = (q : Phase) × Steps p es q × Fits v n q

Follows-after :
    {p q : Phase} (n : ℕ) {e : LifecycleEvent} {es : List LifecycleEvent} (v : Verdict)
    → Step p e q
    → Follows q n es v
    → Follows p n (e ∷ es) v
Follows-after n v s (r, t, f) = (r, then_ s t, f)

backoff-Follows :
    (n d : ℕ) (r : DisconnectReason) (stop : Bool)
    → Step (lost n r) (backing_off n d r) (waiting n)
    → Follows (lost n r) n (backoff_or_stop n d r stop).0 (backoff_or_stop n d r stop).1
unfolding backoff_or_stop
backoff-Follows n d r true s = (over, then_ s (then_ (interrupt n) (here over)), refl)
backoff-Follows n d r false s = (waiting n, then_ s (here (waiting n)), waited n)

handle_action-Follows :
    (n : ℕ) (c : ClientErrorClass) (action : ReconnectAction) (stop : Bool)
    → Follows
        (lost n (client c))
        n
        (handle_action n (client c) action stop).0
        (handle_action n (client c) action stop).1
unfolding handle_action
handle_action-Follows n c keep_session stop = backoff-Follows n _ _ stop (wait_client n _ c)
handle_action-Follows n c (retry_after d) stop = backoff-Follows n _ _ stop (wait_client n d c)
handle_action-Follows n c (retry_with_stored_device_token_after d) stop =
    backoff-Follows n _ _ stop (wait_client n d c)
handle_action-Follows n c (pause w) stop = (halted w, then_ (give_up n c w) (here (halted w)), refl)

handle_runtime_failure-Follows :
    (l : NodeLifecycle) (n : ℕ) (c : RuntimeErrorClass) (stop : Bool)
    → Follows
        (serving n)
        n
        (handle_runtime_failure l n c stop).0
        (handle_runtime_failure l n c stop).1
unfolding handle_runtime_failure
handle_runtime_failure-Follows l n c stop =
    Follows-after n _ (lose n (runtime c))
      (backoff-Follows n _ (runtime c) stop (wait_runtime n _ c))

module _ (J : Json) where
  open J use {Value}

  handle_client_failure-Follows :
      (l : NodeLifecycle) (n : ℕ) (e : ClientError Value) (stop : Bool) (p : Phase)
      → ((c : ClientErrorClass) → Step p (disconnected n (client c)) (lost n (client c)))
      → Follows p n (handle_client_failure J l n e stop).1 (handle_client_failure J l n e stop).2
  unfolding handle_client_failure
  handle_client_failure-Follows l n e stop p s =
      Follows-after n _ (s _) (handle_action-Follows n _ (after_failure J l.reconnect e).1 stop)

  end_session-Follows :
      (l : NodeLifecycle) (n : ℕ) (ending : SessionEnd Value)
      → Follows (serving n) n (end_session J l n ending).1 (end_session J l n ending).2
  unfolding end_session
  end_session-Follows l n (shut_down drained) =
      (over, then_ (lose n shutdown) (then_ (finish n drained) (here over)), refl)
  end_session-Follows l n (client_failed e stop) =
      handle_client_failure-Follows l n e stop (serving n) (λ c. lose n (client c))
  end_session-Follows l n (saturated stop) = handle_runtime_failure-Follows l n _ stop
  end_session-Follows l n (task_failed reason stop) = handle_runtime_failure-Follows l n _ stop
  end_session-Follows l n ended = (
    lost n runtime_ended,
    then_ (lose n runtime_ended) (here (lost n runtime_ended)),
    restarted n,
  )

  run_attempt-Follows :
      (l : NodeLifecycle) (n : ℕ) (a : Attempt Value) (p : Phase)
      → Step p (connecting n) (trying n)
      → Follows p n (run_attempt J l n a).1 (run_attempt J l n a).3
  unfolding run_attempt connected_event
  run_attempt-Follows l n shut_down_connecting p s =
      (over, then_ s (then_ (cancel n) (here over)), refl)
  run_attempt-Follows l n (connect_failed e stop) p s =
      Follows-after n _ s (handle_client_failure-Follows l n e stop (trying n) (refuse n))
  run_attempt-Follows l n (session_opened hello token ending) p s = Follows-after n _ s (
      Follows-after n _ (greet n _ _)
        (Follows-after n _ (serve n) (end_session-Follows _ n ending)))

  continue-Follows :
      (round later : Round J) {p : Phase} {n : ℕ}
      → Follows p n round.1 round.3
      → ((q : Phase) → MayTry q n → (m : ℕ) × Follows q m later.1 later.3)
      → (m : ℕ) × Follows p m (continue J round later).1 (continue J round later).3
  unfolding continue
  continue-Follows (l, es, ts, goes_on) (l', fs, us, v) (q, t, f) h =
      let (m, (r, u, g)) = h q f in (m, (r, Steps-append t u, g))
  continue-Follows (l, es, ts, stops) later {n = n} f h = (n, f)
  continue-Follows (l, es, ts, pauses w) later {n = n} f h = (n, f)

  run_from :
      (l : NodeLifecycle) (n : ℕ) (attempts : List (Attempt Value)) (p : Phase)
      → MayTry p n
      → (m : ℕ) × Follows p m (run J l n attempts).1 (run J l n attempts).3
  unfolding run
  run_from l n [] p t = (n, (p, here p, t))
  run_from l n (a ∷ rest) p t =
      continue-Follows (run_attempt J l (saturating_add n 1) a)
        (run J (run_attempt J l (saturating_add n 1) a).0 (saturating_add n 1) rest)
        (run_attempt-Follows l (saturating_add n 1) a p (MayTry-connects t))
        (run_from (run_attempt J l (saturating_add n 1) a).0 (saturating_add n 1) rest)

  -- The events of a run are steps of the observer's machine from the start: the attempts are numbered
  -- in a row, each is connected before it is ready and ready before it serves, every lost connection is
  -- reported before the back-off, pause or stop that it leads to, with its own number and reason. At
  -- the end the machine is over if the run stopped, halted for its reason if it paused, and before
  -- another attempt if it goes on.
  pub run_follows :
      (l : NodeLifecycle) (attempts : List (Attempt Value))
      → (m : ℕ) × (q : Phase) × Steps (resting 0) (run J l 0 attempts).1 q
        × Fits (run J l 0 attempts).3 m q
  run_follows l attempts =
      let (m, (q, t, f)) = run_from l 0 attempts (resting 0) (rested 0) in (m, q, t, f)
