-- ===== src/Compare/Task.antt =====
-- features/compare/taskRuntime.ts: polling a comparison until it ends.
-- The answers of `getProgress`, one for each poll, are a list; the wait between polls is not
-- modelled. A list that runs out is a task that has not ended yet.
use zszc_sql_client.Base.{◌≡◌, Bool, true, false, List, [], ◌∷◌, ◌++◌, any, arith, if◌then◌else◌}

pub data CompareTaskStatus : Type 0 where
  pending running completed failed canceled : CompareTaskStatus

-- The test that ends the loop.
abbrev pub is_final : CompareTaskStatus → Bool
is_final completed = true
is_final failed = true
is_final canceled = true
is_final _ = false

-- What the caller sees: the progress reports passed to `onProgress`, and whether `getResult` is
-- called.
pub record Polls : Type 0 where
  pub reported : List CompareTaskStatus
  pub fetches_result : Bool

unfoldable pub wait_for_compare_task : List CompareTaskStatus → Polls
wait_for_compare_task [] = record { reported = []; fetches_result = false }
wait_for_compare_task (status ∷ rest) =
    let later = wait_for_compare_task rest in
    if is_final status
    then record { reported = status ∷ []; fetches_result = true }
    else record { reported = status ∷ later.reported; fetches_result = later.fetches_result }

-- Against answers none of which is final, followed by a final one and any others: every answer up to
-- the final one is reported, in order, the result is fetched, and no later answer is asked for.
pub wait_until_final :
    (before : List CompareTaskStatus) (final : CompareTaskStatus) (after : List CompareTaskStatus)
    → any is_final before ≡ false
    → is_final final ≡ true
    → wait_for_compare_task (before ++ final ∷ after)
      ≡ record { reported = before ++ final ∷ []; fetches_result = true }
unfolding wait_for_compare_task
wait_until_final [] final after n e = ground arith
wait_until_final (status ∷ before) final after n e =
    ground (arith, wait_until_final before final after)
