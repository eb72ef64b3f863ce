-- ===== src/Process/Groups.antt =====
-- src/process.c: the groups that `getgrouplist` finds.
use libsolcompat.Common.{
  ℕ, suc, ◌+◌, ◌≡◌, refl, ◌∙◌, sym, ap, ap₂, true, false, not, ◌&&◌, inl, inr, Option, some, List,
  [], ◌∷◌, ◌++◌, length, ltb, ◌==◌, if◌then◌else◌, arith, Bool-cases, append_assoc, append-nil,
  length-append, store, ◌>>=◌,
}
use mathlib.Core.Option
use libsolcompat.Process.{Group, is_member, store_group, groups_loop, Grouplist, getgrouplist}

-- The other groups that name the user, in the order of the database.
abbrev pub memberships : List ℕ → ℕ → List Group → List ℕ
memberships user group [] = []
memberships user group (g ∷ database) =
    if not (g.gr_gid == group) && is_member user (g.gr_mem)
    then g.gr_gid ∷ memberships user group database
    else memberships user group database

-- An array whose first elements are those of a list, as many as there is room for.
abbrev pub overlay : List ℕ → List ℕ → List ℕ
overlay [] groups = groups
overlay (gid ∷ all) [] = []
overlay (gid ∷ all) (g ∷ groups) = gid ∷ overlay all groups

abbrev put_front : ℕ → Option (List ℕ) → Option (List ℕ)
put_front a = Option.map (λ l. a ∷ l)

store_group-overlay :
    (all groups : List ℕ) (gid : ℕ)
    → store_group (overlay all groups) (length groups) (length all) gid
      ≡ some (overlay (all ++ (gid ∷ [])) groups)
store_group-overlay [] [] gid = refl
store_group-overlay [] (g ∷ groups) gid =
    let room : ltb 0 (suc (length groups)) ≡ true = ground arith in rw room refl
store_group-overlay (a ∷ all) [] gid =
    let full : ltb (suc (length all)) 0 ≡ false = ground arith in rw full refl
store_group-overlay (a ∷ all) (g ∷ groups) gid =
    elim (Bool-cases (ltb (length all) (length groups))) [
      | inl room ↦
          let room' : ltb (suc (length all)) (suc (length groups)) ≡ true = ground (arith, room) in
          rw room' (ap (put_front a) (stored room ∙ store_group-overlay all groups gid))
      | inr full ↦
          let full' : ltb (suc (length all)) (suc (length groups)) ≡ false = ground (arith, full) in
          rw full' (ap (put_front a) (kept full ∙ store_group-overlay all groups gid))
    ]
  where
    stored :
        ltb (length all) (length groups) ≡ true
        → store (overlay all groups) (length all) gid
          ≡ store_group (overlay all groups) (length groups) (length all) gid
    stored e = rw e refl

    kept :
        ltb (length all) (length groups) ≡ false
        → some (overlay all groups)
          ≡ store_group (overlay all groups) (length groups) (length all) gid
    kept e = rw e refl

-- After the first write.
abbrev then_groups : List ℕ → ℕ → ℕ → List Group → ℕ → Option (List ℕ) → Option (List ℕ × ℕ)
then_groups user group max_groups database n stored =
    stored >>= (λ groups. groups_loop user group max_groups database groups n)

loop-overlay :
    (database : List Group) (user : List ℕ) (group : ℕ) (all groups : List ℕ)
    → groups_loop user group (length groups) database (overlay all groups) (length all)
      ≡ some (
        overlay (all ++ memberships user group database) groups,
        length (all ++ memberships user group database),
      )
unfolding groups_loop
loop-overlay [] user group all groups =
    ap (λ (l : List ℕ). some (overlay l groups, length l)) (sym (append-nil all))
loop-overlay (g ∷ database) user group all groups =
    let skipped = loop-overlay database user group all groups in
    let rest = memberships user group database in
    let added : then_groups user group (length groups) database (length all + 1)
          (store_group (overlay all groups) (length groups) (length all) g.gr_gid)
        ≡ some (overlay (all ++ (g.gr_gid ∷ rest)) groups, length (all ++ (g.gr_gid ∷ rest))) =
      ap₂ (λ (l : Option (List ℕ)) (n : ℕ). then_groups user group (length groups) database n l)
        (store_group-overlay all groups (g.gr_gid)) (sym (length-append {0} all (g.gr_gid ∷ [])))
      ∙ loop-overlay database user group (all ++ (g.gr_gid ∷ [])) groups
      ∙ ap (λ (l : List ℕ). some (overlay l groups, length l))
          (append_assoc all (g.gr_gid ∷ []) rest) in
    elim (Bool-cases (g.gr_gid == group)) [
      | inl primary ↦ rw primary skipped
      | inr other ↦ elim (Bool-cases (is_member user (g.gr_mem))) [
        | inl member ↦ rw (other, member) added
        | inr absent ↦ rw (other, absent) skipped
      ]
    ]

-- The result that a count leads to.
abbrev result_of : ℕ → List ℕ × ℕ → Option Grouplist
result_of max_groups (filled, group_count) =
    some
      (record { fits = not (ltb max_groups group_count); groups = filled; ngroups = group_count })

-- For every group database and an array of its own length, getgrouplist never writes past the
-- array, sets *ngroups to the number of the primary group and the other groups that name the user,
-- stores as many of them as there is room for, in this order, changes nothing else, and succeeds
-- exactly if all have room.
pub getgrouplist-overlay :
    (user : List ℕ) (group : ℕ) (database : List Group) (groups : List ℕ)
    → getgrouplist user group database groups (length groups)
      ≡ some (record {
        fits = not (ltb (length groups) (length (group ∷ memberships user group database)));
        groups = overlay (group ∷ memberships user group database) groups;
        ngroups = length (group ∷ memberships user group database);
      })
unfolding getgrouplist
getgrouplist-overlay user group database groups =
    ap
      (λ (l : Option (List ℕ)). l >>= (λ groups'.
        groups_loop user group (length groups) database groups' 1
        >>= (λ r. result_of (length groups) r)))
      (store_group-overlay [] groups group)
    ∙ ap (λ (m : Option (List ℕ × ℕ)). m >>= (λ r. result_of (length groups) r))
        (loop-overlay database user group (group ∷ []) groups)
