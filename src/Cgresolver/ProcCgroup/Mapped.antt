-- ===== src/Cgresolver/ProcCgroup/Mapped.antt =====
-- `MapSubsystems` of cgresolver/proc_cgroup.go: the hierarchy that each name leads to.
use procstats.Base.{
  ℕ, suc, ◌≡◌, refl, ap, ◌∙◌, Bool, false, ◌||◌, ◌&&◌, List, [], ◌∷◌, Option, none, some, arith,
  if◌then◌else◌, Bytes, equal, lookup, insert, lookup-insert,
}
use procstats.Cgresolver.ProcCgroup.{
  CgProcHierarchy, is_v2_id, cgroup_v2_quasi_subsystem_name, map_names, map_from, map_subsystems,
}

abbrev pub is_among : Bytes → List Bytes → Bool
is_among name [] = false
is_among name (s ∷ ss) = equal s name || is_among name ss

-- The hierarchy has this controller, or is the v2 hierarchy and the name stands for it.
abbrev pub holds_name : Bytes → CgProcHierarchy → Bool
holds_name name h =
    is_among name h.subsystems
    || (is_v2_id h.hierarchy_id && equal cgroup_v2_quasi_subsystem_name name)

-- The place of the last hierarchy that holds the name, counted from `i`; `o` if there is none.
abbrev pub last_holder : Bytes → ℕ → List CgProcHierarchy → Option ℕ → Option ℕ
last_holder name i [] o = o
last_holder name i (h ∷ hs) o =
    last_holder name (suc i) hs (if holds_name name h then some i else o)

map_names-lookup :
    (name : Bytes) (i : ℕ) (ss : List Bytes) (out : List (Bytes × ℕ))
    → lookup name (map_names i ss out) ≡ (if is_among name ss then some i else lookup name out)
unfolding map_names
map_names-lookup name i [] out = refl
map_names-lookup name i (s ∷ ss) out =
    ground (arith, map_names-lookup name i ss (insert s i out), lookup-insert s i out name)

hierarchy-lookup :
    (name : Bytes) (i : ℕ) (h : CgProcHierarchy) (out : List (Bytes × ℕ))
    → lookup name (
        if is_v2_id h.hierarchy_id
        then insert cgroup_v2_quasi_subsystem_name i (map_names i h.subsystems out)
        else map_names i h.subsystems out)
      ≡ (if holds_name name h then some i else lookup name out)
hierarchy-lookup name i h out = ground (
  arith,
  map_names-lookup name i h.subsystems out,
  lookup-insert cgroup_v2_quasi_subsystem_name i (map_names i h.subsystems out) name,
)

map_from-lookup :
    (name : Bytes) (i : ℕ) (hs : List CgProcHierarchy) (out : List (Bytes × ℕ))
    → lookup name (map_from i hs out) ≡ last_holder name i hs (lookup name out)
unfolding map_from
map_from-lookup name i [] out = refl
map_from-lookup name i (h ∷ hs) out =
    map_from-lookup name (suc i) hs _
    ∙ ap (last_holder name (suc i) hs) (hierarchy-lookup name i h out)

-- `MapSubsystems` leads each name to the last hierarchy that has a controller of this name, or is the v2
-- hierarchy where the name stands for that one, and has no other names.
pub map_subsystems-last_holder :
    (name : Bytes) (hs : List CgProcHierarchy)
    → lookup name (map_subsystems hs) ≡ last_holder name 0 hs none
unfolding map_subsystems lookup
map_subsystems-last_holder name hs = map_from-lookup name 0 hs []
