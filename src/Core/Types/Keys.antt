-- ===== src/Core/Types/Keys.antt =====
-- Laws of bound lists and snapshot references (core/src/types.rs).
use zboot.Base.{
  ◌≡◌, ◌≢◌, refl, true, false, not, some, [], ◌∷◌, ◌++◌, map, arith, ◌==◌, str_eq, nat_eq, elem,
  Str, ok, is_empty, All, filter-keeps, append_assoc, elem-append, elem-filter_ne, length-filter_ne,
  beq_refl, All-map, All-imp, str_beq, if◌then◌else◌, Option-cases, inl, inr, ◌∙◌,
}
use zboot.Text.{codes, is_whitespace, split_once, split}
use zboot.Text.Trim.{NoSpace, trim-NoSpace}
use zboot.Text.Split.{
  append-ne-dash, Lacks, split_once-append, split_once_sound, split-join, join-head, join-All,
}
use zboot.Core.Types.{
  SnapshotRef, parse_snapshot_ref, render_snapshot_ref, BoundKey, key_eq, key_beq_iff, render_key,
  BoundList, parse_key, parse_keys, parse_bound_list, render_bound_list, append_key, remove_key,
}

-- A snapshot reference that can be written: both sides are there, and the dataset has no `@`.
pub record IsRef (r : SnapshotRef) : Type 0 where
  pub dataset_there : r.dataset ≢ []
  pub name_there : r.name ≢ []
  pub dataset_plain : Lacks b'@' r.dataset

-- A snapshot reference that can be written is read back from its print.
pub parse-render_snapshot_ref :
    (r : SnapshotRef) → IsRef r → parse_snapshot_ref (render_snapshot_ref r) ≡ some r
unfolding parse_snapshot_ref render_snapshot_ref
parse-render_snapshot_ref r v =
    ground (arith, split_once-append b'@' r.dataset r.name v.dataset_plain)

-- Whatever is accepted is a proper reference, and its print is the text that was read.
pub render-parse_snapshot_ref :
    (s : Str) (r : SnapshotRef)
    → parse_snapshot_ref s ≡ some r
    → (render_snapshot_ref r ≡ s) × IsRef r
unfolding parse_snapshot_ref render_snapshot_ref
render-parse_snapshot_ref s r h = elim (Option-cases (split_once b'@' s)) [
  | inl e ↦ absurd (ground arith)
  | inr ((a, b), e) ↦
      let (whole, plain) = split_once_sound b'@' s a b e in
      (
        ground arith,
        record {
          dataset_there = ground arith;
          name_there = ground arith;
          dataset_plain = let same : r.dataset ≡ a = ground arith in rw same plain;
        },
      )
]

-- A key whose print is one entry of a list: no part is empty, there is no whitespace and no comma,
-- and the pool has no colon.
pub record IsKey (k : BoundKey) : Type 0 where
  pub pool_there : k.pool ≢ []
  pub be_there : k.be ≢ []
  pub pool_plain : Lacks b':' k.pool
  pub no_space : NoSpace (render_key k)
  pub no_comma : Lacks b',' (render_key k)

parse-render_key : (k : BoundKey) → IsKey k → parse_key (render_key k) ≡ ok k
unfolding parse_key render_key
parse-render_key k v = ground (arith, split_once-append b':' k.pool k.be v.pool_plain)

parse_keys-map : (l : BoundList) → All IsKey l → parse_keys (map render_key l) ≡ ok l
unfolding parse_keys
parse_keys-map [] h = refl
parse_keys-map (k ∷ l) (v, h) =
    rw (trim-NoSpace (render_key k) v.no_space, parse-render_key k v, parse_keys-map l h)

comma-NoSpace : NoSpace (codes ",")
unfolding is_whitespace
comma-NoSpace = (refl, tt)

-- A text without whitespace that is neither empty nor a dash is cut at its commas.
parse_bound_list-long :
    (s : Str)
    → NoSpace s
    → (is_empty s ≡ false) × (str_beq s (codes "-") ≡ false)
    → parse_bound_list s ≡ parse_keys (split b',' s)
unfolding parse_bound_list
parse_bound_list-long s h long = rw (trim-NoSpace s h) (ground arith)

-- Every list of well-formed keys is read back from its print.
pub parse-render_bound_list :
    (l : BoundList) → All IsKey l → parse_bound_list (render_bound_list l) ≡ ok l
unfolding render_bound_list
parse-render_bound_list [] h = unfold parse_bound_list in refl
parse-render_bound_list (k ∷ l) (v, h) =
    let (rest, head) = join-head (codes ",") (render_key k) (map render_key l) in
    let no_space =
      join-All (λ c. is_whitespace c ≡ false) (codes ",") (map render_key (k ∷ l)) comma-NoSpace
        (All-map NoSpace render_key (k ∷ l) (v.no_space, All-imp (λ k v. v.no_space) l h)) in
    let no_comma =
      All-map (Lacks b',') render_key (k ∷ l) (v.no_comma, All-imp (λ k v. v.no_comma) l h) in
    let long = append-ne-dash k.pool b':' (k.be ++ rest) v.pool_there in
    let whole = head ∙ unfold render_key in append_assoc k.pool (b':' ∷ k.be) rest in
    parse_bound_list-long _ no_space (rw whole long)
    ∙ rw (split-join b',' (render_key k) (map render_key l) no_comma)
        (parse_keys-map (k ∷ l) (v, h))

-- After an append exactly the key and what was listed are listed.
pub elem-append_key :
    (k j : BoundKey) (l : BoundList) → elem j (append_key k l) ≡ (if k == j then true else elem j l)
unfolding append_key
elem-append_key k j l =
    let same = key_beq_iff k j in ground (arith, elem-append j l (k ∷ []), elem_one)
  where
    elem_one : elem j (k ∷ []) ≡ (k == j)
    elem_one = unfold elem in ground arith

-- A second append changes nothing.
pub append_key_idem :
    (k : BoundKey) (l : BoundList) → append_key k (append_key k l) ≡ append_key k l
append_key_idem k l = unfold_once (append_key k l) (elem-append_key k k l ∙ rw (beq_refl k))
  where
    unfold_once : (m : BoundList) → elem k m ≡ true → append_key k m ≡ m
    unfold_once m h = unfold append_key in rw h

-- After a removal exactly the other keys are listed.
pub elem-remove_key :
    (k j : BoundKey) (l : BoundList)
    → elem j (remove_key k l).0 ≡ (if k == j then false else elem j l)
unfolding remove_key
elem-remove_key k j l = elem-filter_ne k j l

-- The result of a removal says whether the key was there.
pub remove_key-eq-elem : (k : BoundKey) (l : BoundList) → (remove_key k l).1 ≡ elem k l
unfolding remove_key
remove_key-eq-elem k l = length-filter_ne k l

pub remove_key-IsKey : (k : BoundKey) (l : BoundList) → All IsKey l → All IsKey (remove_key k l).0
unfolding remove_key
remove_key-IsKey k l h = filter-keeps IsKey (λ j. not (j == k)) l h
