-- ===== src/Tests/Kernels.antt =====
-- The kernel of `Machine` with the lists of semaphores that its processes own, and a semaphore that its
-- owner destroys.
use so2_zeos.Prelude.{◌≡◌, refl, false, [], ◌++◌, arith, update, pos}
use so2_zeos.LinkedList.{Links, init_list_head, list_add}
use so2_zeos.LinkedList.Queues.{View, Represents, open_list, push}
use so2_zeos.LinkedList.Queues.Open.{init_list_head-open_list}
use so2_zeos.LinkedList.Queues.Insert.{list_add-push}
use so2_zeos.Kernel.{Kernel}
use so2_zeos.Kernel.Addresses.{readyqueue, sem_anchor, sem_blocked, owned_semaphores}
use so2_zeos.Scheduler.Consistent.{Consistent}
use so2_zeos.Semaphores.{sem_destroy}
use so2_zeos.Semaphores.Destroy.{destroyed_view, sem_destroy-wakes}
use so2_zeos.Tests.Machine.{kernel, links, view, view-Represents}

abbrev owning_links : Links
owning_links = init_list_head (owned_semaphores 5) (
    init_list_head (owned_semaphores 4) (
      init_list_head (owned_semaphores 3) (
        init_list_head (owned_semaphores 2)
          (init_list_head (owned_semaphores 1) (init_list_head (owned_semaphores 0) links)))))

abbrev owning_view : View
owning_view = open_list (owned_semaphores 5) (
    open_list (owned_semaphores 4) (
      open_list (owned_semaphores 3) (
        open_list (owned_semaphores 2)
          (open_list (owned_semaphores 1) (open_list (owned_semaphores 0) view)))))

abbrev system_links : Links
system_links = list_add (sem_anchor 0) (owned_semaphores 1) owning_links

abbrev system_view : View
system_view = push (sem_anchor 0) (owned_semaphores 1) owning_view

owning-Represents : Represents owning_links owning_view
owning-Represents =
    let r0 =
      init_list_head-open_list view-Represents (owned_semaphores 0) (omega arith) refl
        (λ a. ground arith) in
    let r1 =
      init_list_head-open_list r0 (owned_semaphores 1) (omega arith) refl (λ a. ground arith) in
    let r2 =
      init_list_head-open_list r1 (owned_semaphores 2) (omega arith) refl (λ a. ground arith) in
    let r3 =
      init_list_head-open_list r2 (owned_semaphores 3) (omega arith) refl (λ a. ground arith) in
    let r4 =
      init_list_head-open_list r3 (owned_semaphores 4) (omega arith) refl (λ a. ground arith) in
    init_list_head-open_list r4 (owned_semaphores 5) (omega arith) refl (λ a. ground arith)

abbrev system : Kernel
system = record kernel { links = system_links }

system-Consistent : Consistent system system_view
system-Consistent = record {
  queued = record {
    lists =
        list_add-push owning-Represents {a = sem_anchor 0} {h = owned_semaphores 1}
          (record { head = refl; node = refl; real = omega arith; free = refl });
    heads = (refl, refl);
    nodes = λ t h. ground arith;
    states = λ t h ne. ground arith;
    idle = (omega arith, refl);
    tasks_only = λ a h. ground arith;
  };
  on_cpu = (omega arith, refl);
  only = λ t h ne free. ground arith;
}

sem_destroy-wakes_example :
    let v' = destroyed_view 0 system_view in
    ((sem_destroy (pos 0) system).1 ≡ pos 0)
    × Consistent (sem_destroy (pos 0) system).0 v'
    × (v'.items readyqueue ≡ system_view.items readyqueue ++ system_view.items (sem_blocked 0))
    × (v'.items (sem_blocked 0) ≡ [])
    × ((sem_destroy (pos 0) system).0.semaphores
        ≡ update system.semaphores 0 (record { used = false; count = 0; owner = 1 }))
    × ((sem_destroy (pos 0) system).0.current ≡ 1)
    × ((sem_destroy (pos 0) system).0.hung ≡ false)
sem_destroy-wakes_example =
    sem_destroy-wakes 0 system system_view system-Consistent
      (record { range = omega arith; used = refl; head = refl }) (omega arith) refl
