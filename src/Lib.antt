-- ===== src/Lib.antt =====
-- Models of the game logic of PonsWars, and theorems about them.
--
-- PonsWars runs a round every ten minutes: ten stocks are paired into five battles, players pick a
-- side during the first minute, market data scores each battle for nine minutes, and the winners'
-- backers earn War Points, which share a reward pool once a day. A wallet may be dealt one Genesis
-- card, drawn from the hash of a block that was named before. The logic that decides this lies in
-- TypeScript packages, which are what is modelled here:
--
--   Base                 lists, maps, results of functions that throw, integers, text, hashing
--   Shared.Money         packages/shared-types/src/money.ts
--   Shared.Round         packages/shared-types/src/round.ts and time.ts (canTransitionRound,
--                        buildCanonicalClock, displayPhaseAt)
--   Shared.Labels        packages/shared-types/src/battle.ts, confidence.ts, feed.ts, rewards.ts
--   Shared.Cards         packages/shared-types/src/cards.ts
--   Shared.Genesis       packages/shared-types/src/genesis.ts (buildSlotTable, rarityForSlot)
--   Shared.Roster        packages/shared-types/src/roster.ts
--   BattleMath.Scale     packages/battle-math/src/scale.ts
--   BattleMath.Scoring   packages/battle-math/src/scoring.ts (scoreBattle is score_battle)
--   BattleMath.Resolution  packages/battle-math/src/resolution.ts (resolveBattle, classifyVictory)
--   BattleMath.Momentum  packages/battle-math/src/momentum.ts (nextMomentum, wasComeback)
--   BattleMath.Confidence  packages/battle-math/src/confidence.ts (matchupConfidence)
--   BattleMath.Prng      packages/battle-math/src/prng.ts (DeterministicPrng, deriveRoundSeed)
--   BattleMath.Matchmaking  packages/battle-math/src/matchmaking.ts (pairInOrder, cooldownSet)
--   BattleMath.Scheduler  packages/battle-math/src/scheduler.ts (roundIndexAt, roundIdFor)
--   BattleMath.Genesis   packages/battle-math/src/genesis-rng.ts (resolveGenesis)
--   BattleEngine.Evidence  packages/battle-engine/src/evidence.ts and versions.ts (foldEvidence)
--   BattleEngine.Battle  packages/battle-engine/src/engine.ts (beginBattle, openBattle, applyTick)
--   BattleEngine.Finalize  packages/battle-engine/src/engine.ts (finalizeBattle)
--   BattleEngine.Rounds  packages/battle-engine/src/round.ts (lockRound, tickBattle, finalizeRound);
--                        createRound is in BattleEngine.Rounds.Create
--   BattleEngine.Driver  packages/battle-engine/src/driver.ts (nextRoundAction)
--   Rewards.Allocation   packages/rewards-math/src/allocation.ts (allocateDistribution)
--   Rewards.Merkle       packages/rewards-math/src/merkle.ts (buildMerkleTree, verifyProof)
--   Genesis              packages/genesis-service/src (eligibility and the states of a request in
--                        Genesis.Requests, the repository in Genesis.Store, GenesisFlow in
--                        Genesis.Flow)
--   Realtime             packages/realtime/src (the sequencer of envelopes, the client's receiver,
--                        the hub of connections)
--   RoundService         packages/round-service/src (the ports in Ports, stepRound in Loop,
--                        runRounds and announceRoundOpened in Driver, its waits in
--                        Driver.Market) and, in Picks, picks.ts with the pick store of
--                        apps/api/src/pick-store.ts
--
-- How the parts meet: the scheduler fixes the clock of a round and matchmaking its pairings, both
-- from published inputs; scoring turns the inputs of two sides into a score of one hundred points;
-- momentum follows the score from tick to tick; resolution reads the winner off the last score and
-- names the victory with the confidence that was computed before the battle; the battle engine
-- keeps the state of a battle through these steps and the round engine that of the five battles of
-- a round, with its picks and awards; allocation divides the pool by the points of a window. The
-- round service drives the round engine: a pass asks the engine's driver what is due, reads the
-- locked picks or the market through its ports, performs the transition, saves it, and then
-- publishes through the realtime package, whose hub names the connections that an event reaches
-- and whose receiver is the client's end of it. The Genesis service keeps the request of a wallet
-- from its opening to its claim and draws the card with the deterministic generator. The child
-- modules hold the theorems, each named for what it is about, and each Tests module holds runs on
-- concrete values.
--
-- Conventions. An asynchronous call that rejects returns an error, and one that changes what it
-- works on returns its result with what it left. A port is a field of a record: what it answers is
-- an argument of each step, and the theorems hold for every answer and every failure, unless they
-- say that the ports answer. A failing write writes nothing, and the calls of one object follow
-- one another. A map is a list of entries in the order of insertion. In Genesis and Realtime a
-- wallet is its text. A bigint is an integer without bounds, and a number that the source requires
-- to be whole is a natural number or such an integer, so that its tests of Number.isInteger always
-- hold and are left out. A function that throws returns a Result whose error keeps the class of
-- what is thrown (RangeError, TypeError, Error) and not its text. A wallet address is the number
-- that its forty lower-case digits denote, so that the order of the strings is that of the
-- numbers. A string is a list of character codes, and a ticker is ordered by its place among the
-- ten names. Times are whole milliseconds. Objects that the source mutates (the generator, the
-- maps and sets of allocateDistribution) are states that each step passes on. SHA-256 and the
-- UTF-8 bytes of a string come from Node and are fields of the record Base.Hashing.Hashing, with
-- the length of a digest and the range of its bytes as its laws; keccak-256 and the ABI encoding
-- come from viem and are fields of Rewards.Merkle.Keccak. Its one law says when encodeAbiParameters
-- throws: on an id or an amount that a uint256 does not hold, and on an address of more than twenty
-- bytes. The conversions of scores by Number() are left out, as they are exact in the range of
-- scores, and the gaps of a ConfidenceCalibration are taken to be whole.
--
-- Bounds and fuel. The search for pairings takes one unit of fuel for each ticker, and the theorem
-- about it covers the fuel that pairInOrder is given; the levels of a Merkle tree take a unit for
-- each leaf, which the theorem that a tree is built shows to be enough. Newton's iteration
-- recurses on an accessibility proof and needs none. The passes of allocateDistribution take one
-- unit for each wallet and one more, and the theorem that a distribution ends shows that they
-- never run out. The digits of a number take as much fuel as the number. The rejection loop of
-- nextBelow has no bound in the source; its model takes fuel and returns the error out_of_fuel,
-- which the source does not have, where that ends first. The draws of a Genesis card and the shuffle of createRound take that fuel
-- too; the theorems about the Genesis flow and about a driver hold for every fuel, with an
-- exhausted one as one more failure, and the one that a driver goes on asks that the shuffle of
-- the next round ends within its fuel. The waits of a driver lie between its passes: each pass
-- takes the instant that it reads as an argument, and waitForMarket the instants that its turns
-- read. A driver that the signal stops makes no further pass; one that it stops while the market
-- is shut leaves what an opening that fails leaves.
--
-- Not modelled: floating-point values for display (frontline, intensity); the callbacks of the
-- round driver, which only report; the clock offset of the realtime client; the market data,
-- player record, replay, event qualification and lease packages; the SQL stores, the gateways,
-- servers and user interface around these packages, the chain clients, the Solidity contracts and
-- the SQL migrations.
pub mod Base
pub mod Shared
pub mod BattleMath
pub mod BattleEngine
pub mod Rewards
pub mod Genesis
pub mod Realtime
pub mod RoundService
