-- ===== src/Tests/Execution.antt =====
-- `submit_plan` on a plan of one sell and one buy.
use poma.Prelude.{string_eq, refl}
use poma.Execution.FileLedger.{file_ledger, file_ledger-LedgerLaws}
use poma.Execution.Invariant.{AllBarred}
use poma.Execution.NoResend.{Frees, submit_plan-AllBarred}
use poma.Execution.Submit.{submit_plan}
use poma.Store.View.{IsCoherent}
use poma.Store.History.{start as no_history, History-IsCoherent}
use poma.Tests.Fixed.{fixed_float}
use poma.Tests.Scenario.{settings, accepting, plan, start}

submit_plan-AllBarred_example :
    AllBarred file_ledger
      (λ k. Frees (file_ledger.latest k start.ledger))
      (submit_plan file_ledger accepting settings plan start).1.submissions
submit_plan-AllBarred_example =
    submit_plan-AllBarred file_ledger accepting settings (λ (s, n). IsCoherent s)
      file_ledger-LedgerLaws refl plan start (History-IsCoherent no_history) refl
