-- ===== src/Backend/State/Concurrent/HintLost.antt =====
-- A hint that is given while a query caches what the device reported.
use smartmontools_go.Base.{
  String, false, none, some, List, [], ◌∷◌, GoMap, lookup, insert, lookup-insert, ◌==◌, eq_refl,
  ◌≡◌, refl,
}
use smartmontools_go.Interleave.{Step, here, there, Steps, start, next}
use smartmontools_go.Backend.State.{
  State, get_cached_device_type, set_cached_device_type, cache_if_absent,
}
use smartmontools_go.Backend.State.Cache.{lookup-set_cached_device_type, cache_if_absent-Keeps}
use smartmontools_go.Backend.State.Concurrent.{
  Task, giving, reporting, storing, settled, report_step, task_step,
}

module _ (path device_type : String) (ts : List Task) (m : GoMap String) where
  -- a check that finds no type
  check_absent :
      lookup path m ≡ none
      → (device_type == "") ≡ false
      → Step task_step (reporting path device_type ∷ ts) m (storing path device_type ∷ ts) m
  unfolding task_step report_step
  check_absent absent named =
      let h : Step task_step (reporting path device_type ∷ ts) m
          (report_step path device_type (lookup path m) ∷ ts) m =
        here in
      rw named at (rw absent at h)

  write_type :
      Step task_step
        (storing path device_type ∷ ts)
        m
        (settled path device_type ∷ ts)
        (insert path device_type m)
  unfolding task_step
  write_type = here

  give_hint :
      Step task_step
        (giving path device_type ∷ ts)
        m
        (settled path device_type ∷ ts)
        (insert path device_type m)
  unfolding task_step
  give_hint = here

-- For a path without a cached type, a hint is lost in a run in which it is given between the check and the
-- write of a query that caches the reported type; in either order without interleaving the hint is
-- what is cached.
pub hint_lost :
    (path hinted reported : String) (s : State)
    → get_cached_device_type path s ≡ none
    → (reported == "") ≡ false
    → ((m : GoMap String) × Steps task_step
          (reporting path reported ∷ giving path hinted ∷ [])
          s.device_type_cache
          (settled path reported ∷ settled path hinted ∷ [])
          m
        × (lookup path m ≡ some reported))
      × (get_cached_device_type path
            (set_cached_device_type path hinted (cache_if_absent path reported s))
          ≡ some hinted)
      × (get_cached_device_type path
            (cache_if_absent path reported (set_cached_device_type path hinted s))
          ≡ some hinted)
hint_lost path hinted reported s absent named =
    let m = s.device_type_cache in
    (
      (
        insert path reported (insert path hinted m),
        next
            (next (next start (check_absent path reported (giving path hinted ∷ []) m absent named))
              (there (give_hint path hinted [] m)))
            (write_type path reported (settled path hinted ∷ []) (insert path hinted m)),
        rw (lookup-insert path path reported (insert path hinted m), eq_refl path) refl,
      ),
      rw
          (
            lookup-set_cached_device_type path hinted path (cache_if_absent path reported s),
            eq_refl path,
          )
          refl,
      (cache_if_absent-Keeps path reported (set_cached_device_type path hinted s)).at path hinted
          (rw (lookup-set_cached_device_type path hinted path s, eq_refl path) refl),
    )
