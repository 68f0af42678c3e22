-- ===== src/Trainer/Connected.antt =====
-- The rounds in which two parties connect, and the steps of training.
use n_mpc.Prelude.{
  if◌then◌else◌, ℕ, zero, suc, ◌+◌, ◌≤◌, ◌<◌, String, Bool, true, false, some, List, [], ◌∷◌,
  str_eq, ◌≡◌, refl, subst, arith, inl, inr, Bool-cases,
}
use n_mpc.Trainer.Connect.{
  Peer, retry, connect_round, connect_loop, wait_connect, Mode, Op, bridge_init, channel_init,
  connect_at, train_start, train_commit, step_op, train_loop, run_session,
}

-- An operation that answers 0 from some call on succeeds from there.
retry-ready :
    (n : ℕ) (status : ℕ → ℕ) (calls : ℕ)
    → status calls ≡ 0
    → retry (suc n) status calls ≡ (true, calls + 1)
unfolding retry
retry-ready n status calls h = rw (retry, h) refl

-- The retries make at most as many calls as they may.
retry-bound :
    (n : ℕ) (status : ℕ → ℕ) (calls : ℕ)
    → (calls ≤ (retry n status calls).1) × ((retry n status calls).1 ≤ calls + n)
unfolding retry
retry-bound zero status calls = (omega arith, omega arith)
retry-bound (suc n) status calls = ground (arith, retry-bound n status (calls + 1))

either_ready : (b : Bool) (m n : ℕ) → (if◌then◌else◌ {A = Bool × ℕ} b (true, m) (true, n)).0 ≡ true
either_ready true m n = refl
either_ready false m n = refl

module _ (peer : Peer) (role : String) where
  connect_round-bound :
      (calls : ℕ)
      → (calls < (connect_round peer role calls).1)
        × ((connect_round peer role calls).1 ≤ calls + 7)
  unfolding connect_round
  connect_round-bound calls =
      let after = (wait_connect peer (calls + 1)).1 in
      ground (arith, retry-bound 3 peer.wait_peer (calls + 1), retry-bound 3 peer.follow after)

  -- What holds of a peer that is up from the call `up` on.
  module _ (up : ℕ) (connects : (n : ℕ) → up ≤ n → peer.connect n ≡ 0)
      (waits : (n : ℕ) → up ≤ n → peer.wait_peer n ≡ 0)
      (follows : (n : ℕ) → up ≤ n → peer.follow n ≡ 0) where
    connect_round-ready : (calls : ℕ) → up ≤ calls → (connect_round peer role calls).0 ≡ true
    unfolding connect_round
    connect_round-ready calls h =
        let wait = retry-ready 2 peer.wait_peer (calls + 1) (waits (calls + 1) (omega arith)) in
        let follow =
          retry-ready 2 peer.follow (calls + 1 + 1) (follows (calls + 1 + 1) (omega arith)) in
        simp (connect_round, connects calls h, wait, follow)
          (either_ready (str_eq role "follower") _ _)

    connect_loop-ends :
        (fuel calls : ℕ)
        → up < calls + fuel
        → calls < up + 7
        → 0 < fuel
        → (n : ℕ) × (connect_loop peer fuel role calls ≡ some n) × (n < up + 14)
    unfolding connect_loop
    connect_loop-ends zero calls h l pos = absurd (omega arith)
    connect_loop-ends (suc fuel) calls h l pos =
        let next = (connect_round peer role calls).1 in
        let (more, few) = connect_round-bound calls in
        elim (Bool-cases (connect_round peer role calls).0) [
          | inl ready ↦ (next, rw ready refl, omega arith)
          | inr again ↦
              let early : calls < up = ground (arith, connect_round-ready calls) in
              let (n, ends, bound) =
                connect_loop-ends fuel next (omega arith) (omega arith) (omega arith) in
              (n, rw again ends, bound)
        ]

-- A peer whose three operations answer with status 0 from some call on is connected: with more
-- rounds of fuel than calls before that, the loop breaks, within 13 calls after that one.
pub connect_loop-connected :
    (peer : Peer) (role : String) (up fuel : ℕ)
    → ((n : ℕ) → up ≤ n → peer.connect n ≡ 0)
    → ((n : ℕ) → up ≤ n → peer.wait_peer n ≡ 0)
    → ((n : ℕ) → up ≤ n → peer.follow n ≡ 0)
    → up < fuel
    → (calls : ℕ) × (connect_loop peer fuel role 0 ≡ some calls) × (calls ≤ up + 13)
connect_loop-connected peer role up fuel connects waits follows enough =
    let (calls, ends, bound) =
      connect_loop-ends peer role up connects waits follows fuel 0 (omega arith) (omega arith)
        (omega arith) in
    (calls, ends, omega arith)

-- `n` steps of training.
abbrev pub steps_of : Mode → ℕ → List Op
steps_of mode zero = []
steps_of mode (suc n) = train_start ∷ step_op mode ∷ train_commit ∷ steps_of mode n

train_loop-runs :
    (should_stop : ℕ → Bool) (mode : Mode) (left fuel run_steps steps : ℕ)
    → ((k : ℕ) → k < left → should_stop (steps + k) ≡ false)
    → should_stop (steps + left) ≡ true
    → left < fuel
    → train_loop should_stop fuel mode run_steps steps ≡ some (run_steps + left, steps_of mode left)
unfolding train_loop
train_loop-runs should_stop mode left zero run_steps steps on off enough = absurd (omega arith)
train_loop-runs should_stop mode zero (suc fuel) run_steps steps on off enough =
    let here : steps + 0 ≡ steps = omega arith in
    let stopped = subst (λ m. should_stop m ≡ true) here off in ground (arith, stopped)
train_loop-runs should_stop mode (suc left) (suc fuel) run_steps steps on off enough =
    let here : steps + 0 ≡ steps = omega arith in
    let later : (k : ℕ) → steps + suc k ≡ steps + 1 + k = λ k. omega arith in
    let going = subst (λ m. should_stop m ≡ false) here (on 0 (omega arith)) in
    let rest =
      train_loop-runs should_stop mode left fuel (run_steps + 1) (steps + 1)
        (λ k h. subst (λ m. should_stop m ≡ false) (later k) (on (suc k) (omega arith)))
        (subst (λ m. should_stop m ≡ true) (later left) off) (omega arith) in
    ground (arith, going, rest)

-- A session that stops after a positive number of steps, with a peer that comes up: with enough
-- fuel it initialises the bridge and its channels once, connects, and then runs as many steps of
-- training as the session lets it, each between a start and a commit; run_steps ends one higher
-- than their number.
pub run_session-trains :
    (should_stop : ℕ → Bool) (peer : Peer) (role : String) (mode : Mode) (up steps fuel : ℕ)
    → ((n : ℕ) → up ≤ n → peer.connect n ≡ 0)
    → ((n : ℕ) → up ≤ n → peer.wait_peer n ≡ 0)
    → ((n : ℕ) → up ≤ n → peer.follow n ≡ 0)
    → ((k : ℕ) → k < steps → should_stop k ≡ false)
    → should_stop steps ≡ true
    → 0 < steps
    → up + steps < fuel
    → (calls : ℕ) × (calls ≤ up + 13)
      × (run_session should_stop peer fuel role mode
          ≡ some (1 + steps, bridge_init ∷ channel_init ∷ connect_at calls ∷ steps_of mode steps))
unfolding run_session
run_session-trains should_stop peer role mode up steps fuel connects waits follows on off pos
      enough =
    let (calls, ends, bound) =
      connect_loop-connected peer role up fuel connects waits follows (omega arith) in
    let alike : (k : ℕ) → k ≡ 0 + k = λ k. omega arith in
    let trained =
      train_loop-runs should_stop mode steps fuel 1 0
        (λ k h. subst (λ n. should_stop n ≡ false) (alike k) (on k h))
        (subst (λ n. should_stop n ≡ true) (alike steps) off) (omega arith) in
    (calls, bound, simp (run_session, on 0 pos, ends, trained))
