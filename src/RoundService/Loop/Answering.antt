-- ===== src/RoundService/Loop/Answering.antt =====
-- Ports that answer a step (packages/round-service/src/loop.ts and ports.ts).
use ponswars.Base.{ℕ, ◌++◌, ◌∙◌, ◌≡◌, refl, List, [], ◌∷◌, some, ok, Returns}
use ponswars.Base.Text.{Text}
use ponswars.BattleMath.Resolution.Hashed.{IsHexText}
use ponswars.BattleEngine.Rounds.{LockedPick, RoundEngineState, RoundFinalization, check_picks}
use ponswars.RoundService.Ports.{
  RoundPorts, Payload, World, saved_state, saved_finalization, published, save_state,
  save_finalization, publish, publish_all, state_saved, finalization_saved, event_published,
}

-- Ports on which no write fails.
pub record Writes (ports : RoundPorts) : Type 0 where
  pub saves : (s : RoundEngineState) → Returns (ports.save_state s)
  pub closes : (f : RoundFinalization) → Returns (ports.save_finalization f)
  pub tells :
      (channel : Text) (at : ℕ) (payload : Payload) → Returns (ports.publish channel at payload)

-- The ports answer for a round: the picks are ones that it takes, the block hash is in hex, and no
-- write fails.
pub record Answers (ports : RoundPorts) (round : RoundEngineState) : Type 0 where
  pub picks : List LockedPick
  pub picks_given : ports.locked_picks round.round_id ≡ ok picks
  pub picks_taken : check_picks round.battles [] picks ≡ ok tt
  pub hash : Text
  pub hash_given : ports.finalization_block_hash round.clock.battle_end_at ≡ ok hash
  pub hash_in_hex : IsHexText hash
  pub writes : Writes ports

module _ (ports : RoundPorts) where
  pub save_state-Returns :
      (state : RoundEngineState) (w : World)
      → Returns (ports.save_state state)
      → (v : World) × (save_state ports state w ≡ (ok tt, v)) × (v.latest ≡ some state)
  unfolding save_state state_saved
  save_state-Returns state w (_, e) =
      let kept : World = record { latest = some state; log = w.log ++ (saved_state state ∷ []) } in
      (kept, rw e refl, refl)

  pub save_finalization-Returns :
      (f : RoundFinalization) (w : World)
      → Returns (ports.save_finalization f)
      → (ids : List Text) × (v : World) × (save_finalization ports f w ≡ (ok ids, v))
        × (v.latest ≡ some f.state)
  unfolding save_finalization finalization_saved
  save_finalization-Returns f w (ids, e) =
      let kept : World = record {
        latest = some f.state;
        log = w.log ++ (saved_finalization f ∷ []);
      } in
      (ids, kept, rw e refl, refl)

  pub publish-Returns :
      (channel : Text) (at : ℕ) (payload : Payload) (w : World)
      → Returns (ports.publish channel at payload)
      → (v : World) × (publish ports channel at payload w ≡ (ok tt, v)) × (v.latest ≡ w.latest)
  unfolding publish event_published
  publish-Returns channel at payload w (_, e) =
      let told : World = record {
        latest = w.latest;
        log = w.log ++ (published channel at payload ∷ []);
      } in
      (told, rw e refl, refl)

  pub publish_all-Returns :
      (events : List (Text × ℕ × Payload)) (w : World)
      → ((channel : Text) (at : ℕ) (payload : Payload) → Returns (ports.publish channel at payload))
      → (v : World) × (publish_all ports events w ≡ (ok tt, v)) × (v.latest ≡ w.latest)
  unfolding publish_all
  publish_all-Returns [] w t = (w, refl, refl)
  publish_all-Returns ((channel, at, payload) ∷ events) w t =
      let (u, e, f) = publish-Returns channel at payload w (t channel at payload) in
      let (v, g, h) = publish_all-Returns events u t in (v, rw e g, h ∙ f)
