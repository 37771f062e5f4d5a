-- ===== src/Startup/Order.antt =====
-- The manager starts last: a part that is refused ends the process before.
use keycloak_operator.Base.{ℕ, String, false, List, [], ◌∷◌, ◌++◌, ◌≡◌, arith, inl, inr}
use keycloak_operator.Errors.{Error, err, Result-cases}
use keycloak_operator.World.{Act, Op}
use keycloak_operator.Startup.{
  Build, Flags, Part, parts, complaint, Runtime, or_exit, register_all, run_manager, main,
  manager_options,
}
use keycloak_operator.Engine.{resync_or_default}

-- An observer who sees nothing but the start of the manager.
pub record IsBlindToSetup {W C : Type 0} (runtime : Runtime W) (seen : W → C) : Type 0 where
  pub new_manager : (o : _) (w : W) → seen (runtime.new_manager o w).1 ≡ seen w
  pub register : (resync : ℕ) (p : Part) (w : W) → seen (runtime.register resync p w).1 ≡ seen w
  pub log_error :
      (message : String) (e : Error) (w : W) → seen (runtime.log_error message e w).1 ≡ seen w

module _ {W C : Type 0} (runtime : Runtime W) (seen : W → C)
    (blind : IsBlindToSetup runtime seen) where
  -- It ends with the code 1 and shows nothing.
  abbrev Ends : Act W ℕ → Type 0
  Ends run = (w : W) → ((run w).0 ≡ 1) × (seen (run w).1 ≡ seen w)

  abbrev pub Refuses : Op W (Unit {0}) → Type 0
  Refuses call = (w : W) → (e : Error) × ((call w).0 ≡ err e)

  or_exit-Refuses :
      (message : String) (call : Op W (Unit {0})) (rest : Act W ℕ)
      → ((w : W) → seen (call w).1 ≡ seen w)
      → Refuses call
      → Ends (or_exit runtime message call rest)
  unfolding or_exit
  or_exit-Refuses message call rest quiet refuses w =
      let (e, failed) = refuses w in
      (
        ground (arith, failed),
        ground (arith, failed, blind.log_error message e (call w).1, quiet w),
      )

  or_exit-Ends :
      (message : String) (call : Op W (Unit {0})) (rest : Act W ℕ)
      → ((w : W) → seen (call w).1 ≡ seen w)
      → Ends rest
      → Ends (or_exit runtime message call rest)
  unfolding or_exit
  or_exit-Ends message call rest quiet ends w = elim (Result-cases (call w).0) [
    | inl (u, worked) ↦ ground (arith, worked, quiet w, ends (call w).1)
    | inr (e, failed) ↦ ground (arith, failed, blind.log_error message e (call w).1, quiet w)
  ]

  register_all-Ends :
      (resync : ℕ) (before after : List Part) (p : Part) (rest : Act W ℕ)
      → Refuses (runtime.register resync p)
      → Ends (register_all runtime resync (before ++ p ∷ after) rest)
  unfolding register_all
  register_all-Ends resync [] after p rest refuses =
      or_exit-Refuses (complaint p) (runtime.register resync p)
        (register_all runtime resync after rest) (blind.register resync p) refuses
  register_all-Ends resync (q ∷ before) after p rest refuses =
      or_exit-Ends (complaint q) (runtime.register resync q)
        (register_all runtime resync (before ++ p ∷ after) rest) (blind.register resync q)
        (register_all-Ends resync before after p rest refuses)

  register_all-among :
      (resync : ℕ) (ps before after : List Part) (p : Part) (rest : Act W ℕ)
      → ps ≡ before ++ p ∷ after
      → Refuses (runtime.register resync p)
      → Ends (register_all runtime resync ps rest)
  register_all-among resync ps before after p rest e refuses =
      rw e (register_all-Ends resync before after p rest refuses)

  run_manager-Ends :
      (flags : Flags) (before after : List Part) (p : Part)
      → parts ≡ before ++ p ∷ after
      → Refuses (runtime.register (resync_or_default flags.resync_period) p)
      → Ends (run_manager runtime flags)
  unfolding run_manager
  run_manager-Ends flags before after p among refuses =
      or_exit-Ends "Failed to start manager" (runtime.new_manager (manager_options flags)) _
        (blind.new_manager (manager_options flags))
        (register_all-among (resync_or_default flags.resync_period) parts before after p _ among
          refuses)

  main-run_manager :
      (build : Build) (flags : Flags) (w : W)
      → flags.show_version ≡ false
      → main runtime build flags w ≡ run_manager runtime flags w
  unfolding main
  main-run_manager build flags w runs = ground (arith, runs)

  -- The operator runs whole or not at all. Where controller-runtime refuses a controller or a check
  -- that the operator registers, whatever the world in which it is asked, and the flag --version is
  -- not given, the process exits with the code 1, and an observer who sees none of the calls that
  -- make the manager, register a part or log an error sees no change: the manager was not started.
  pub refused_part_never_starts :
      (build : Build) (flags : Flags) (before after : List Part) (p : Part) (w : W)
      → flags.show_version ≡ false
      → parts ≡ before ++ p ∷ after
      → Refuses (runtime.register (resync_or_default flags.resync_period) p)
      → ((main runtime build flags w).0 ≡ 1) × (seen (main runtime build flags w).1 ≡ seen w)
  refused_part_never_starts build flags before after p w runs among refuses =
      rw (main-run_manager build flags w runs)
        (run_manager-Ends flags before after p among refuses w)
