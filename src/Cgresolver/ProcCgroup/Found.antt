-- ===== src/Cgresolver/ProcCgroup/Found.antt =====
-- What `subsystemPath` of cgresolver/cg_path.go finds in the lists of subsystems and of hierarchies.
use procstats.Base.{
  ◌≡◌, ◌↔◌, refl, true, List, [], ◌∷◌, some, arith, Bytes, equal, equal_iff, Bool-cases, inl, inr,
}
use procstats.Base.Int.{ℤ, pos, negsuc}
use procstats.Cgresolver.ProcCgroup.Resolve.{equal_ids, find_subsystem, find_controller}
use procstats.Cgresolver.ProcCgroup.Table.{CGroupSubsystem}
use procstats.Cgresolver.ProcCgroup.{CgProcHierarchy}

-- The first of a list that has a property.
pub data IsFirstOf {A : Type 0} (P : A → Type 0) (x : A) : List A → Type 0 where
  here : {xs : List A} → P x → IsFirstOf P x (x ∷ xs)
  behind : {y : A} {xs : List A} → ¬ P y → IsFirstOf P x xs → IsFirstOf P x (y ∷ xs)

abbrev pub HasSubsys : Bytes → CGroupSubsystem → Type 0
HasSubsys name c = c.subsys ≡ name

abbrev pub HasId : ℤ → CgProcHierarchy → Type 0
HasId id c = c.hierarchy_id ≡ id

equal_ids_iff : (a b : ℤ) → (equal_ids a b ≡ true) ↔ (a ≡ b)
equal_ids_iff (pos a) (pos b) = ground arith
equal_ids_iff (pos a) (negsuc b) = ground arith
equal_ids_iff (negsuc a) (pos b) = ground arith
equal_ids_iff (negsuc a) (negsuc b) = ground arith

pub find_subsystem-first :
    (name : Bytes) (s : CGroupSubsystem) (cs : List CGroupSubsystem)
    → IsFirstOf (HasSubsys name) s cs
    → find_subsystem name cs ≡ some s
unfolding find_subsystem
find_subsystem-first name s [] f = elim f [ ]
find_subsystem-first name s (_ ∷ cs) (here e) =
    rw ((equal_iff s.subsys name).1 e, find_subsystem) refl
find_subsystem-first name s (c ∷ cs) (behind n f) = elim (Bool-cases (equal c.subsys name)) [
  | inl t ↦ absurd (n ((equal_iff c.subsys name).0 t))
  | inr g ↦ rw (g, find_subsystem) (find_subsystem-first name s cs f)
]

pub find_controller-first :
    (id : ℤ) (h : CgProcHierarchy) (hs : List CgProcHierarchy)
    → IsFirstOf (HasId id) h hs
    → find_controller id hs ≡ some h
unfolding find_controller
find_controller-first id h [] f = elim f [ ]
find_controller-first id h (_ ∷ hs) (here e) =
    rw ((equal_ids_iff h.hierarchy_id id).1 e, find_controller) refl
find_controller-first id h (c ∷ hs) (behind n f) = elim (Bool-cases (equal_ids c.hierarchy_id id)) [
  | inl t ↦ absurd (n ((equal_ids_iff c.hierarchy_id id).0 t))
  | inr g ↦ rw (g, find_controller) (find_controller-first id h hs f)
]
