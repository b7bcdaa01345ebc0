-- ===== src/Podman/Container/Counts.antt =====
-- The mounts and volumes of a native request, counted against what is asked for.
use whaleshell_driver.Base.{
  ok-inj, suc, Str, length, length-append, List, [], ◌∷◌, ◌++◌, map, Result, ok, >>=-eq-ok, ◌≡◌,
  ◌+◌, refl, ap, arith,
}
use whaleshell_driver.Engine.{CreateOptions}
use whaleshell_driver.Podman.Container.{SpecError}
use whaleshell_driver.Podman.Container.Storage.{
  Placed, translate_bind, translate_mount, translate_tmpfs, sort_targets, insert_target, each,
  mounts_of, volumes_of,
}
use whaleshell_driver.Podman.Container.Build.{placed}

length-placed : (ps : List Placed) → length (mounts_of ps) + length (volumes_of ps) ≡ length ps
unfolding mounts_of volumes_of
length-placed [] = refl
length-placed (Placed.mount m ∷ rest) = omega (arith, length-placed rest)
length-placed (Placed.volume v ∷ rest) = omega (arith, length-placed rest)

length-each :
    {A B : Type 0} (f : A → Result SpecError B) (xs : List A) {ys : List B}
    → each f xs ≡ ok ys
    → length ys ≡ length xs
length-each f [] h = ground arith
length-each f (x ∷ xs) h =
    let (y, first, rest) = >>=-eq-ok (f x) _ h in
    let (zs, later, last) = >>=-eq-ok (each f xs) _ rest in
    omega (arith, ap length (ok-inj last), length-each f xs later)

length-insert_target :
    (e : Str × Str) (es : List (Str × Str)) → length (insert_target e es) ≡ suc (length es)
unfolding insert_target
length-insert_target e [] = refl
length-insert_target e (f ∷ rest) = ground (arith, length-insert_target e rest)

length-sort_targets : (es : List (Str × Str)) → length (sort_targets es) ≡ length es
unfolding sort_targets
length-sort_targets [] = refl
length-sort_targets (e ∷ rest) =
    omega (arith, length-insert_target e (sort_targets rest), length-sort_targets rest)

length-map : {A B : Type 0} (f : A → B) (xs : List A) → length (map f xs) ≡ length xs
length-map f [] = refl
length-map f (x ∷ xs) = omega (arith, length-map f xs)

-- The numbers of what is asked for and of what is sent agree.
pub length-storage :
    (o : CreateOptions) {ps : List Placed}
    → placed o ≡ ok ps
    → length (mounts_of ps) + length (volumes_of ps)
      ≡ length o.host.binds + (length o.host.mounts + length o.host.tmpfs)
unfolding placed
length-storage o {ps} h =
    let (binds, first, rest) = >>=-eq-ok (each translate_bind o.host.binds) _ h in
    let (mounts, second, last) = >>=-eq-ok (each translate_mount o.host.mounts) _ rest in
    let temporary = map translate_tmpfs (sort_targets o.host.tmpfs) in
    omega (
      arith,
      ap length (ok-inj last),
      length-placed ps,
      length-append binds (mounts ++ temporary),
      length-append mounts temporary,
      length-map translate_tmpfs (sort_targets o.host.tmpfs),
      length-sort_targets o.host.tmpfs,
      length-each translate_bind o.host.binds first,
      length-each translate_mount o.host.mounts second,
    )
