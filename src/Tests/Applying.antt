-- ===== src/Tests/Applying.antt =====
-- applyDeployment on the test cluster.
use yanet_operator.Base.{
  ◌≡◌, refl, Bool, true, false, some, [], ◌∷◌, String, ◌==◌, nat_eq, string_eq, int_eq, option_eq,
  Result, ok, err, All, length,
}
use yanet_operator.Controller.Throttle.{Throttle}
use yanet_operator.Controller.Apply.{
  ApplyError, Object, found, Attempt, Comparison, Applied, conflict, apply_deployment,
}
use yanet_operator.Controller.Apply.Writes.{MayBeWritten, apply_deployment-MayBeWritten}
use yanet_operator.Controller.Apply.Quiet.{apply_deployment-IsQuiet}
use yanet_operator.Tests.{object, owner}

-- A spec is its image's tag.
abbrev comparison : Comparison String
comparison = record { same_spec = λ s t. s == t; same_owners = λ s t. true; same_map = λ s t. true }

abbrev at_tag : String → Object String
at_tag tag = record { meta = object "d" (some (owner "a")); owners = owner "a" ∷ []; spec = tag }

-- The dry run returns its argument, and the update has the given result.
abbrev attempt : Result ApplyError (Unit {0}) → Attempt String
attempt result = record {
  got = found (at_tag "1.0");
  stopped_early = false;
  dry_run = λ o. ok o;
  now = 200;
  stopped = false;
  update = result;
}

abbrev idle : Throttle
idle = record { last_update_ts = 100; last_update_host = "n2" }

abbrev run_test : Bool → Applied String
run_test auto_sync =
    apply_deployment String comparison auto_sync 60 "n1" (at_tag "1.1") (found (at_tag "1.0")) false
      (λ o. ok tt) (attempt (err conflict)) (attempt (ok tt) ∷ []) idle

-- The second attempt writes.
one_write : length (run_test true).writes ≡ 1
unfolding apply_deployment string_eq nat_eq
one_write = refl

apply_deployment-MayBeWritten_example :
    All
      (λ w.
        MayBeWritten String comparison true 60 "n1"
          (at_tag "1.1")
          w
          (attempt (err conflict) ∷ attempt (ok tt) ∷ [])
          idle)
      (run_test true).writes
apply_deployment-MayBeWritten_example =
    apply_deployment-MayBeWritten String comparison true 60 "n1" (at_tag "1.1") (at_tag "1.0") false
      (λ o. ok tt) (attempt (err conflict)) (attempt (ok tt) ∷ []) idle

apply_deployment-IsQuiet_example :
    ((run_test false).writes ≡ []) × ((run_test false).throttle ≡ idle)
apply_deployment-IsQuiet_example =
    apply_deployment-IsQuiet String comparison 60 "n1" (at_tag "1.1") (found (at_tag "1.0")) false
      (λ o. ok tt) (attempt (err conflict)) (attempt (ok tt) ∷ []) idle
