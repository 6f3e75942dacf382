-- ===== src/RoundService/Driver/Opened.antt =====
-- What opening a round writes (`openRound` and `persistOpened` in
-- packages/round-service/src/driver.ts).
use ponswars.Base.{
  ℕ, ◌+◌, ◌≡◌, ◌⊎◌, inr, refl, sym, ◌≤◌, All, arith, ap, subst, true, false, List, [], ◌∷◌, ◌++◌,
  none, some, any, map_result, Result, ok, err, ◌>>=◌, >>=-eq-ok, ok-injective,
}
use ponswars.Base.Text.{Text, is_empty}
use ponswars.Base.Hashing.{Hashing}
use ponswars.Shared.Round.{RoundState, CanonicalClock, build_canonical_clock}
use ponswars.Shared.Roster.{active_tickers}
use ponswars.BattleMath.Scheduler.{clock_for_round, round_id_for}
use ponswars.BattleMath.Scheduler.Names.{battle_id_for-is_empty}
use ponswars.BattleMath.Matchmaking.{Pairing}
use ponswars.BattleEngine.Battle.{BattleEngineState, EngineConfig}
use ponswars.BattleEngine.Rounds.Running.{Fresh}
use ponswars.RoundService.Loop.Lively.{Lively}
use ponswars.BattleEngine.Rounds.{RoundEngineState}
use ponswars.BattleEngine.Rounds.Create.{RoundSetup, create_round, AreCreated, create_round_lem}
use ponswars.Realtime.Envelope.{world_channel}
use ponswars.RoundService.Ports.{Effect, round_opened, World, on_action, save_state, publish}
use ponswars.RoundService.Loop.Ordered.{
  IsOrdered, ends, on_action_lem, Keeps, publish-Keeps, state_saved-Keeps, state_saved_err,
}
use ponswars.RoundService.Loop.Stored.{past_battle, Held, on_result_lem}
use ponswars.RoundService.Driver.{
  Opening, DriverOptions, Driver, opened_matchups, found_lookback, open_round, latest_of,
  announce_round_opened, persist_opened, open_next,
}

-- A log of whole rounds, the rounds 0 to `n - 1` one after the other: each is saved before it is told,
-- and has its finalization saved once, before the next round.
pub data IsChronicle : ℕ → List Effect → Type 0 where
  nothing : IsChronicle 0 []
  whole_round :
      (n : ℕ) (log round : List Effect)
      → IsChronicle n log
      → IsOrdered (round_id_for n) false false round
      → any ends round ≡ true
      → IsChronicle (n + 1) (log ++ round)

-- The world of a driver: its round is the stored one, after the rounds before it, and its battles are
-- those that the engine reaches.
pub record KeptBy (hashing : Hashing) (config : EngineConfig) (d : Driver) (w : World)
    : Type 0 where
  pub base : List Effect
  pub before : IsChronicle d.index base
  pub held : Held (Lively hashing config) (round_id_for d.index) base w d.round

-- A world that nothing has been written to, or with a stored round after the rounds before it.
abbrev pub Kept : Hashing → EngineConfig → World → Type 0
Kept hashing config w =
    ((w.latest ≡ none) × (w.log ≡ [])) ⊎ ((d : Driver) × KeptBy hashing config d w)

-- What a driver that runs, or that has thrown, leaves.
abbrev pub Ran : Hashing → EngineConfig → Result Driver × World → Type 0
Ran hashing config (ok d, w) = KeptBy hashing config d w × (past_battle d.round.state ≡ false)
Ran hashing config (err e, w) = Kept hashing config w

AreCreated-Fresh :
    (setup : RoundSetup) (slot : ℕ) (ps : List Pairing) (bs : List BattleEngineState)
    → AreCreated setup slot ps bs
    → All (Fresh setup.clock) bs
AreCreated-Fresh setup slot [] [] a = tt
AreCreated-Fresh setup slot (p ∷ ps) (b ∷ bs) (fresh, name, on, _, _, _, a) =
    let n =
      subst (λ (t : Text). is_empty t ≡ false) (sym name)
        (battle_id_for-is_empty setup.round_index slot) in
    ((fresh, on, n), AreCreated-Fresh setup (slot + 1) ps bs a)
AreCreated-Fresh setup slot [] (b ∷ bs) a = absurd a
AreCreated-Fresh setup slot (p ∷ ps) [] a = absurd a

-- The clock of a round opens, locks and starts in order.
clock_for_round-in_order :
    (epoch index at : ℕ)
    → ((clock_for_round epoch index at).pick_open_at ≤ (clock_for_round epoch index at).lock_at)
      × ((clock_for_round epoch index at).battle_start_at
          ≤ (clock_for_round epoch index at).lock_at)
      × ((clock_for_round epoch index at).lock_at ≤ (clock_for_round epoch index at).battle_end_at)
unfolding clock_for_round build_canonical_clock
clock_for_round-in_order epoch index at = (omega arith, omega arith, omega arith)

-- An opened round has its name, its picks are open and its battles are fresh.
pub open_round-Lively :
    (hashing : Hashing) (fuel : ℕ) (options : DriverOptions) (o : Opening) (index from : ℕ)
    (r : RoundEngineState)
    → open_round hashing fuel options o index (clock_for_round from 0 o.served_at) ≡ ok r
    → (r.round_id ≡ round_id_for index)
      × (r.state ≡ RoundState.pick_open)
      × Lively hashing options.config r
unfolding open_round
open_round-Lively hashing fuel options o index from r e =
    let clock = clock_for_round from 0 o.served_at in
    let (ls, l, f) =
      >>=-eq-ok
        (map_result (λ ticker. o.lookback ticker o.observed_at >>= λ l. ok (ticker, l))
          active_tickers)
        _ e in
    let setup : RoundSetup = record {
      round_id = round_id_for index;
      round_index = index;
      clock = clock;
      base_seed_hex = options.base_seed_hex;
      roster = none;
      recent_rounds = some [];
      lookback = found_lookback ls;
      calibration = options.calibration;
    } in
    let (c, d, g) = >>=-eq-ok (create_round hashing fuel setup) _ f in
    let (n, k, s, _, (ps, _, a)) = create_round_lem hashing fuel setup d in
    let (x, y, z) = clock_for_round-in_order from 0 o.served_at in
    subst
      (λ (r : RoundEngineState).
        (r.round_id ≡ round_id_for index)
        × (r.state ≡ RoundState.pick_open)
        × Lively hashing options.config r)
      (ok-injective g)
      (
        n,
        refl,
        subst
            (λ (t : CanonicalClock).
              (t.pick_open_at ≤ t.lock_at)
              × (t.battle_start_at ≤ t.lock_at)
              × (t.lock_at ≤ t.battle_end_at)
              × All (Fresh t) c.battles)
            (sym k) (x, y, z, AreCreated-Fresh setup 0 ps c.battles a),
      )

append_nil : (es : List Effect) → es ≡ es ++ []
append_nil [] = refl
append_nil (e ∷ es) = ap (λ (xs : List Effect). e ∷ xs) (append_nil es)

-- What saving and announcing the round of a driver leaves.
abbrev Persisted : Hashing → EngineConfig → Driver → Result (Unit {0}) × World → Type 0
Persisted hashing config d (ok u, w) = KeptBy hashing config d w
Persisted hashing config d (err e, w) = Kept hashing config w

module _ (hashing : Hashing) (options : DriverOptions) where
  KeptBy-Persisted :
      (d : Driver) (r : Result (Unit {0}) × World)
      → KeptBy hashing options.config d r.1
      → Persisted hashing options.config d r
  KeptBy-Persisted d (ok u, w) k = k
  KeptBy-Persisted d (err e, w) k = inr (d, k)

  -- An announcement that is told follows the save.
  announce-Persisted :
      (o : Opening) (d : Driver) (w v : World)
      → IsChronicle d.index w.log
      → d.round.round_id ≡ round_id_for d.index
      → past_battle d.round.state ≡ false
      → Lively hashing options.config d.round
      → Keeps (round_id_for d.index) w.log true false (some d.round) v
      → Persisted hashing options.config d (announce_round_opened options o.ports d.round v)
  unfolding announce_round_opened
  announce-Persisted o d w v c n p l k =
      let payload =
        round_opened d.round.round_id d.round.clock (opened_matchups 0 d.round.battles) in
      let holds : (u : World)
          → Keeps (round_id_for d.index) w.log true false (some d.round) u
          → KeptBy hashing options.config d u =
        λ u h. record { base = w.log; before = c; held = (true, rw p h, n, l) } in
      on_result_lem (Persisted hashing options.config d) (options.accepts payload) _ v
        (λ _ _.
          KeptBy-Persisted d (publish o.ports world_channel d.round.clock.pick_open_at payload v) (
            holds _ (
              publish-Keeps (round_id_for d.index) w.log true false (some d.round) o.ports
                world_channel d.round.clock.pick_open_at payload v (n, refl, refl) k)))
        (λ _. inr (d, holds v k))

  persist_opened-Persisted :
      (o : Opening) (d : Driver) (w : World)
      → IsChronicle d.index w.log
      → Kept hashing options.config w
      → d.round.round_id ≡ round_id_for d.index
      → past_battle d.round.state ≡ false
      → Lively hashing options.config d.round
      → Persisted hashing options.config d (persist_opened options o.ports d.round w)
  unfolding persist_opened save_state
  persist_opened-Persisted o d w c k n p l =
      on_action_lem (Persisted hashing options.config d) (save_state o.ports d.round w)
        (λ _. announce_round_opened options o.ports d.round)
        (λ u e. announce-Persisted o d w _ c n p l (
          state_saved-Keeps (round_id_for d.index) w.log (o.ports.save_state d.round) false d.round
            w ([], append_nil w.log, record { ordered = tt; saved_is = refl; over_is = refl }) n e))
        (λ x e.
          subst (Kept hashing options.config)
            (sym (state_saved_err (o.ports.save_state d.round) d.round w e)) k)

  on_action-Ran :
      (d : Driver) (r : Result (Unit {0}) × World)
      → past_battle d.round.state ≡ false
      → Persisted hashing options.config d r
      → Ran hashing options.config (on_action r (λ _ after. (ok d, after)))
  on_action-Ran d (ok u, w) p k = (k, p)
  on_action-Ran d (err e, w) p k = k

  pub open_next-Ran :
      (fuel : ℕ) (o : Opening) (index from : ℕ) (w : World)
      → IsChronicle index w.log
      → Kept hashing options.config w
      → Ran hashing options.config (open_next hashing fuel options o index from w)
  unfolding open_next
  open_next-Ran fuel o index from w c k =
      let clock = clock_for_round (latest_of from o.opened_at) 0 o.served_at in
      on_result_lem (Ran hashing options.config) (open_round hashing fuel options o index clock) _ w
        (λ round e.
          let (n, s, l) =
            open_round-Lively hashing fuel options o index (latest_of from o.opened_at) round e in
          let d : Driver = record { index = index; clock = clock; round = round } in
          on_action-Ran d (persist_opened options o.ports round w) (rw s refl)
            (persist_opened-Persisted o d w c k n (rw s refl) l))
        (λ _. k)
