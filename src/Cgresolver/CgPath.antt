-- ===== src/Cgresolver/CgPath.antt =====
-- `CGroupPath` and `Parent` of cgresolver/cg_path.go, and the loop over a cgroup and its ancestors
-- that cgrouplimits/cgroup_linux.go writes three times.
pub mod Walk
pub mod Invariant
pub mod Ends
use procstats.Base.{
  ℕ, zero, suc, Bool, true, false, Option, none, some, if◌then◌else◌, Bytes, codes, equal, Result,
  ok, err,
}
use procstats.Go.Strings.{trim_suffix, before_last}

pub data CgMode : Type 0 where
  unknown v1 v2 : CgMode

unfoldable pub cgroup2_mode : Bool → CgMode
cgroup2_mode true = v2
cgroup2_mode false = v1

pub record CGroupPath : Type 0 where
  pub abs_path : Bytes
  pub mount_path : Bytes
  pub mode : CgMode

-- `Parent`; `none` is its panic.
unfoldable pub parent : CGroupPath → Option (CGroupPath × Bool)
unfolding trim_suffix before_last
parent c =
    let path = trim_suffix (codes "/") c.abs_path in
    let mnt = trim_suffix (codes "/") c.mount_path in
    if equal mnt path
    then some (record { abs_path = path; mount_path = mnt; mode = c.mode }, false)
    else elim (before_last b'/' path) [
      | none ↦ none
      | some dir ↦ some (record { abs_path = dir; mount_path = mnt; mode = c.mode }, true)
    ]

-- How the loop may stop other than by its condition.
pub data Stop : Type 0 where
  panic out_of_fuel : Stop

-- `for newDir := true; newDir; path, newDir = path.Parent() { body }`, with `body` on the loop's
-- variables. A `continue` in a body goes on to the parent too.
unfoldable pub for_ancestors :
    {S : Type 0} → (CGroupPath → S → S) → ℕ → CGroupPath → S → Result Stop S
unfolding parent
for_ancestors body zero path s = err out_of_fuel
for_ancestors body (suc fuel) path s = elim (parent path) [
  | none ↦ err panic
  | some (up, true) ↦ for_ancestors body fuel up (body path s)
  | some (up, false) ↦ ok (body path s)
]
