-- ===== src/Controller/Workload/HostPath/Laws.antt =====
-- The volumes and mounts of the host paths of an app (applyAppConfig of
-- controllers/cliapp_workload.go).
use Prim.Native.String
use mathlib.Core.List.{append_assoc, append-nil}
use text.Mathlib.TextLemmas.{append_cancel_left}
use cliapp.Base.{
  ℕ, suc, ◌<◌, ◌≡◌, ◌≢◌, refl, sym, ap, subst, ◌∙◌, true, List, [], ◌∷◌, ◌++◌, String, some, arith,
  All, Distinct, map,
}
use cliapp.Base.Text.{split, trim_space, is_abs}
use cliapp.Base.Text.Decimal.{itoa, atoi}
use cliapp.Base.Text.Decimal.Laws.{atoi-itoa}
use cliapp.Kube.{Volume, VolumeMount, host_path}
use cliapp.Controller.State.{Answer, ok, err}
use cliapp.Controller.Workload.HostPath.{
  Binding, parse_mount_pair, parse_host_path, volume_name, volume_of, mount_of, HostMounts,
  add_mount, host_mounts_from, host_mounts,
}

-- The two paths that the parts of a text say: the part behind the first ":" is where the path before it
-- is mounted, which is the same path where there is no ":". White space around them does not count.
abbrev pub ArePaths : List String → String → String → Type 0
ArePaths [] from to = ⊥
ArePaths (part ∷ []) from to = (from ≡ trim_space part) × (to ≡ trim_space part)
ArePaths (part ∷ further ∷ _) from to = (from ≡ trim_space part) × (to ≡ trim_space further)

-- The volume is a path of the host, and the mount of the same name is elsewhere, both absolute.
abbrev pub IsMountOf : ℕ → String → Volume → VolumeMount → Type 0
IsMountOf i path v m =
    (from : String) × (to : String) × ArePaths (split b':' (trim_space path)) from to
    × (v ≡ record { name = String.◌++◌ "hostpath-" (itoa i); source = host_path from })
    × (m ≡ record { name = String.◌++◌ "hostpath-" (itoa i); mount_path = to })
    × (is_abs from ≡ true)
    × (is_abs to ≡ true)

-- Paths, volumes and mounts go together, numbered from `i` on.
abbrev pub AreMountsOf : ℕ → List String → List Volume → List VolumeMount → Type 0
AreMountsOf i [] [] [] = Unit
AreMountsOf i (path ∷ paths) (v ∷ vs) (m ∷ ms) =
    IsMountOf i path v m × AreMountsOf (suc i) paths vs ms
AreMountsOf i _ _ _ = ⊥

parse_host_path-IsMountOf :
    (i : ℕ) (path : String) (b : Binding)
    → parse_host_path path ≡ ok b
    → IsMountOf i path (volume_of i b) (mount_of i b)
unfolding parse_host_path parse_mount_pair
parse_host_path-IsMountOf i path b h = of_parts (split b':' (trim_space path)) refl h
  where
    of_parts :
        (parts : List String)
        → split b':' (trim_space path) ≡ parts
        → parse_mount_pair parts ≡ ok b
        → IsMountOf i path (volume_of i b) (mount_of i b)
    of_parts [] q e = ground arith
    of_parts (x ∷ []) q e = (
      b.hostpath,
      b.mountpoint,
      subst (λ ps. ArePaths ps b.hostpath b.mountpoint) (sym q) (ground arith),
      refl,
      refl,
      ground arith,
      ground arith,
    )
    of_parts (x ∷ y ∷ zs) q e = (
      b.hostpath,
      b.mountpoint,
      subst (λ ps. ArePaths ps b.hostpath b.mountpoint) (sym q) (ground arith),
      refl,
      refl,
      ground arith,
      ground arith,
    )

abbrev AreAppended : ℕ → HostMounts → List String → HostMounts → Type 0
AreAppended i before paths h =
    (vs : List Volume) × (ms : List VolumeMount) × (h.volumes ≡ before.volumes ++ vs)
    × (h.mounts ≡ before.mounts ++ ms)
    × AreMountsOf i paths vs ms

host_mounts_from-AreAppended :
    (i : ℕ) (before : HostMounts) (paths : List String) (h : HostMounts)
    → host_mounts_from i before paths ≡ ok h
    → AreAppended i before paths h
unfolding host_mounts_from
host_mounts_from-AreAppended i before [] h e =
    let same : before ≡ h = ground arith in
    (
      [],
      [],
      ap (λ x. x.volumes) (sym same) ∙ sym (append-nil before.volumes),
      ap (λ x. x.mounts) (sym same) ∙ sym (append-nil before.mounts),
      tt,
    )
host_mounts_from-AreAppended i before (path ∷ paths) h e =
    parsed (parse_host_path path) refl e
      λ b. host_mounts_from-AreAppended (suc i) (add_mount i b before) paths h
  where
    parsed :
        (a : Answer Binding)
        → parse_host_path path ≡ a
        → (elim a [ ok b ↦ host_mounts_from (suc i) (add_mount i b before) paths | err x ↦ err x ])
          ≡ ok h
        → ((b : Binding)
            → host_mounts_from (suc i) (add_mount i b before) paths ≡ ok h
            → AreAppended (suc i) (add_mount i b before) paths h)
        → AreAppended i before (path ∷ paths) h
    parsed (err x) p q ih = ground arith
    parsed (ok b) p q ih =
        let (vs, ms, f, g, r) = ih b q in
        (
          volume_of i b ∷ vs,
          mount_of i b ∷ ms,
          f ∙ append_assoc before.volumes (volume_of i b ∷ []) vs,
          g ∙ append_assoc before.mounts (mount_of i b ∷ []) ms,
          (parse_host_path-IsMountOf i path b p, r),
        )

itoa-injective : (i j : ℕ) → itoa i ≡ itoa j → i ≡ j
itoa-injective i j e =
    let same : some i ≡ some j = sym (atoi-itoa i) ∙ ap atoi e ∙ atoi-itoa j in ground arith

other_names :
    (i j : ℕ) (paths : List String) (vs : List Volume) (ms : List VolumeMount)
    → i < j
    → AreMountsOf j paths vs ms
    → All (λ name. volume_name i ≢ name) (map (λ v. v.name) vs)
other_names i j [] [] [] l h = tt
other_names i j [] [] (m ∷ ms) l h = absurd h
other_names i j [] (v ∷ vs) ms l h = absurd h
other_names i j (p ∷ ps) [] ms l h = absurd h
other_names i j (p ∷ ps) (v ∷ vs) [] l h = absurd h
other_names i j (p ∷ ps) (v ∷ vs) (m ∷ ms) l ((from, to, parts, made, mounted, h, k), hs) = (
  λ e.
      let named = e ∙ ap (λ x. x.name) made in
      let same : i ≡ j =
        itoa-injective i j (append_cancel_left "hostpath-" (itoa i) (itoa j) named) in
      omega arith,
  other_names i (suc j) ps vs ms (omega arith) hs,
)

AreMountsOf-Distinct :
    (i : ℕ) (paths : List String) (vs : List Volume) (ms : List VolumeMount)
    → AreMountsOf i paths vs ms
    → Distinct (map (λ v. v.name) vs)
AreMountsOf-Distinct i [] [] [] h = tt
AreMountsOf-Distinct i [] [] (m ∷ ms) h = absurd h
AreMountsOf-Distinct i [] (v ∷ vs) ms h = absurd h
AreMountsOf-Distinct i (p ∷ ps) [] ms h = absurd h
AreMountsOf-Distinct i (p ∷ ps) (v ∷ vs) [] h = absurd h
AreMountsOf-Distinct i (p ∷ ps) (v ∷ vs) (m ∷ ms) ((from, to, parts, made, mounted, h, k), hs) = (
  subst (λ name. All (λ y. name ≢ y) (map (λ x. x.name) vs)) (sym (ap (λ x. x.name) made))
      (other_names i (suc i) ps vs ms (omega arith) hs),
  AreMountsOf-Distinct (suc i) ps vs ms hs,
)

-- Where the loop over the host paths of an app succeeds, paths, volumes and mounts go together in
-- order: each volume is the path of the host that stands before the first ":" of its text, and the mount
-- of the same name is the path behind it, or the same path where there is no ":". Both are absolute
-- and without the white space around, and no two volumes have the same name.
pub host_mounts-AreMountsOf :
    (paths : List String) (h : HostMounts)
    → host_mounts paths ≡ ok h
    → AreMountsOf 0 paths h.volumes h.mounts × Distinct (map (λ v. v.name) h.volumes)
unfolding host_mounts
host_mounts-AreMountsOf paths h e =
    let (vs, ms, f, g, r) =
      host_mounts_from-AreAppended 0 (record { volumes = []; mounts = [] }) paths h e in
    (
      subst (λ x. AreMountsOf 0 paths x h.mounts) (sym f)
          (subst (AreMountsOf 0 paths vs) (sym g) r),
      subst (λ x. Distinct (map (λ v. v.name) x)) (sym f) (AreMountsOf-Distinct 0 paths vs ms r),
    )
