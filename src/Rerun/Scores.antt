-- ===== src/Rerun/Scores.antt =====
-- How two runs compare (rerun/branch.py, rerun/evaluators.py).
use agent_debug_x.Base.{◌≤◌, ◌<◌, ◌≡◌, refl, ◌↔◌, ◌⊎◌, inl, inr, ltb, string_eq, Bool-cases, arith}
use agent_debug_x.Schema.{AgentTrajectory}
use agent_debug_x.Rerun.Branch.{
  error_count, improved, worse, unchanged, compare_branches, evaluate_local_proxy,
}

-- The number of events with an error decides the comparison: the rerun is an improvement exactly if
-- it has fewer, worse exactly if it has more, and unchanged exactly if it has as many.
compare_branches_iff :
    (original rerun : AgentTrajectory)
    → let result = (compare_branches original rerun).result in
      ((result ≡ improved) ↔ (error_count rerun < error_count original))
      × ((result ≡ worse) ↔ (error_count original < error_count rerun))
      × ((result ≡ unchanged) ↔ (error_count original ≡ error_count rerun))
unfolding compare_branches
compare_branches_iff original rerun =
    let n = error_count original in
    let m = error_count rerun in
    elim (Bool-cases (ltb m n)) [
      | inl e ↦ rw e (ground arith)
      | inr e ↦ elim (Bool-cases (ltb n m)) [
        | inl f ↦ rw (e, f) (ground arith)
        | inr f ↦ rw (e, f) (ground arith)
      ]
    ]

-- The scores of the local evaluation are 0 or 1 and agree with its result: the score does not fall on
-- an improvement, does not rise on a worse run, and is the same on an unchanged one. The score after
-- the rerun is 1 exactly if no event of it has an error.
evaluate_local_proxy-scores :
    (original rerun : AgentTrajectory)
    → let e = evaluate_local_proxy original rerun in
      (((e.result ≡ improved) × (e.score_before ≤ e.score_after))
        ⊎ ((e.result ≡ worse) × (e.score_after ≤ e.score_before))
        ⊎ ((e.result ≡ unchanged) × (e.score_after ≡ e.score_before)))
      × ((e.score_after ≡ 1) ↔ (error_count rerun ≡ 0))
      × (e.score_before ≤ 1)
      × (e.score_after ≤ 1)
unfolding evaluate_local_proxy compare_branches
evaluate_local_proxy-scores original rerun =
    let n = error_count original in
    let m = error_count rerun in
    elim (Bool-cases (ltb m n)) [
      | inl e ↦ rw e ((inl (refl, ground arith), ground arith, ground arith, ground arith))
      | inr e ↦ elim (Bool-cases (ltb n m)) [
        | inl f ↦
            rw (e, f) ((inr (inl (refl, ground arith)), ground arith, ground arith, ground arith))
        | inr f ↦
            rw (e, f) ((inr (inr (refl, ground arith)), ground arith, ground arith, ground arith))
      ]
    ]
