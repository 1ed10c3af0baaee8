-- ===== src/Handover/Tests.antt =====
-- src/shared_backend.rs with two virtual machines, 1 and 2, and a controller that counts the interrupt
-- lines that it is given. Descriptors are numbers.
use usbvfiod.Prelude.{ℕ, ◌+◌, ◌≡◌, refl, true, some, [], ◌∷◌, pure}
use usbvfiod.SlotManager.{done}
use usbvfiod.Handover.{Registration, Ownership, ok, Backend}
use usbvfiod.Handover.Policy.{new, render_locked}
use usbvfiod.Handover.Preflight.{
  expire_candidate, preflight_hard, all_eventfds, ranges_cover, any_covers,
}
use usbvfiod.Handover.Control.{
  handover_ready, handover_commit, committed, commit_checks, commit_point,
}
use usbvfiod.Handover.Connection.{
  answered, set_irqs, establish, insert, validate_irq_request, register, stage, dma_unmap,
  disconnect, remove, is_stale, owns_device, staged, forgotten,
}
use usbvfiod.Handover.Validity.{IsValid}
use usbvfiod.Handover.Runs.{here, next, irqs, ready, commit, Later, Reach-IsValid, new-IsValid}
use usbvfiod.Handover.Commit.{Outcome, handover_commit-Outcome}
use usbvfiod.Handover.Stale.{Teardowns, Untouched, Teardowns-Untouched}
use usbvfiod.Handover.Stale

abbrev backend : Backend ℕ ℕ
backend = record {
  is_eventfd = λ fd. true;
  try_clone = λ fds. pure (done tt);
  set_irqs = λ index flags start count fds b. some (done tt, b + 1);
  reset = pure (done tt);
  dma_map = λ flags offset address size. pure (done tt);
  dma_unmap = λ flags address size. pure (done tt);
}

abbrev line : ℕ → Registration ℕ
line fd = record { index = 2; flags = 36; start = 0; count = 1; fds = fd ∷ [] }

abbrev first : Ownership ℕ
first = record new { live = 1 ∷ []; owner = 1; owner_reg = some (line 7); epoch = 1 }

abbrev waiting : Ownership ℕ
waiting = staged (establish first 2) 10 2 (line 8)

abbrev prepared : Ownership ℕ
prepared = (handover_ready waiting 11 2).1

abbrev second : Ownership ℕ
second = committed prepared 12 (record { id = 2; reg = line 8; deadline = 2010; ready = true })

register_first : set_irqs backend new 0 1 (line 7) 0 ≡ some ((answered (done tt), first), 1)
unfolding set_irqs establish insert expire_candidate validate_irq_request register new
register_first = refl

register_second : set_irqs backend first 10 2 (line 8) 1 ≡ some ((answered (done tt), waiting), 1)
unfolding set_irqs establish insert expire_candidate validate_irq_request register stage new
register_second = refl

commit_second :
    handover_commit backend prepared 12 2 1 1 ≡ some ((ok (render_locked second), second), 2)
unfolding handover_commit handover_ready establish insert expire_candidate new commit_checks
    commit_point preflight_hard all_eventfds ranges_cover any_covers
commit_second = refl

Reach-IsValid_example : IsValid second × Later backend new second
Reach-IsValid_example = Reach-IsValid backend new-IsValid (
    next
      (next
        (next (next here (irqs 0 1 (line 7) refl register_first))
          (irqs 10 2 (line 8) refl register_second))
        (ready 11 2))
      (commit 12 2 1 commit_second))

handover_commit-Outcome_example :
    Outcome backend prepared 12 2 1 (ok (render_locked second), second)
handover_commit-Outcome_example =
    handover_commit-Outcome backend prepared 12 2 1 1 (ok (render_locked second)) second 2
      commit_second

unmap_first : dma_unmap backend second 1 0 0x1000 0x1000 2 ≡ some ((done tt, establish second 1), 2)
unfolding dma_unmap is_stale owns_device establish insert new handover_ready expire_candidate
unmap_first = refl

leave_first :
    disconnect backend (establish second 1) 20 1 2 ≡ some (forgotten (establish second 1) 1, 2)
unfolding disconnect establish insert remove new handover_ready expire_candidate
leave_first = refl

abbrev unmapped : ℕ
unmapped = 2

abbrev torn_down : Ownership ℕ
torn_down = forgotten (establish second 1) 1

Teardowns-Untouched_example : (unmapped ≡ unmapped) × Untouched second torn_down
unfolding new handover_ready establish insert remove expire_candidate
Teardowns-Untouched_example =
    Teardowns-Untouched backend (refl, refl)
      (Stale.next (Stale.next Stale.here (Stale.unmap 1 0 0x1000 0x1000 refl unmap_first))
        (Stale.leave 20 1 refl leave_first))
