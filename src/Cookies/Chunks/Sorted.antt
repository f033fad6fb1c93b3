-- ===== src/Cookies/Chunks/Sorted.antt =====
-- cookie_parsing.py: `sorted` on the chunks, as a canonical form of chunks with distinct indices.
use mathlib.Core.List.{
  Mem, Nodup, Perm, Permᴰ, Nodup-cons, Nodup-nil, not-mem-nil, mem-cons_self, eq-or-mem_of_mem-cons,
}
use mathlib.Core.List.Perm
use mathlib.Core.Logic.Or
use mathlib.Core.Logic.{∥∥₁_elim}
use native.Mathlib.Bridge.{le_prop}
use fastapi_better_auth.Base.{
  ℕ, suc, ◌≤◌, ◌≡◌, refl, sym, ap, ◌∙◌, ◌≢◌, true, List, [], ◌∷◌, ◌++◌, map, arith, leb, Bool-cases,
  inl, inr,
}
use fastapi_better_auth.Text.{Str}
use fastapi_better_auth.Cookies.Chunks.{Chunk, insert, sort, runs_from, concat}

abbrev pub keys : List Chunk → List ℕ
keys = map (λ c. c.0)

-- enumerate(values, i)
abbrev pub enumerate : ℕ → List Str → List Chunk
enumerate i [] = []
enumerate i (v ∷ vs) = (i, v) ∷ enumerate (suc i) vs

abbrev pub values : List Chunk → List Str
values = map (λ c. c.1)

-- "".join(values)
abbrev pub joined : List Str → Str
joined [] = []
joined (v ∷ vs) = v ++ joined vs

insert_comm :
    (a b : Chunk) (l : List Chunk) → a.0 ≢ b.0 → insert a (insert b l) ≡ insert b (insert a l)
unfolding insert
insert_comm a b [] h = ground arith
insert_comm a b (c ∷ l) h = ground (arith, insert_comm a b l h)

insert-perm : (c : Chunk) (l : List Chunk) → Perm (insert c l) (c ∷ l)
unfolding insert
insert-perm c [] = Perm.refl _
insert-perm c (d ∷ l) = elim (Bool-cases (leb c.0 d.0)) [
  | inl before ↦ rw before (Perm.refl _)
  | inr after ↦ rw after (Perm.trans (Perm.cons d (insert-perm c l)) (Perm.swap c d l))
]

pub sort-perm : (l : List Chunk) → Perm (sort l) l
unfolding sort
sort-perm [] = Perm.refl []
sort-perm (c ∷ l) = Perm.trans (insert-perm c (sort l)) (Perm.cons c (sort-perm l))

sort-eq_of_permᴰ : {l m : List Chunk} → Permᴰ l m → Nodup (keys l) → sort l ≡ sort m
unfolding sort
sort-eq_of_permᴰ Permᴰ.nil d = refl
sort-eq_of_permᴰ (Permᴰ.cons {b = b} e p) d =
    rw e (ap (insert b) (sort-eq_of_permᴰ p (Nodup-cons.0 d).1))
sort-eq_of_permᴰ (Permᴰ.swap {a = a} {b = b} {l = l} e f) d =
    rw (← e, ← f) (insert_comm a b (sort l) (λ same. (Nodup-cons.0 d).0 (rw same mem-cons_self)))
sort-eq_of_permᴰ (Permᴰ.trans p q) d =
    sort-eq_of_permᴰ p d ∙ sort-eq_of_permᴰ q (Perm.nodup (Perm.map (λ (c : Chunk). c.0) ∣ p ∣₁) d)

Chunks-set : IsSet (List Chunk)
Chunks-set = hlevel

-- Chunks with distinct indices are sorted alike in whatever order they arrive.
pub sort-eq_of_perm : {l m : List Chunk} → Perm l m → Nodup (keys l) → sort l ≡ sort m
sort-eq_of_perm p d = ∥∥₁_elim p (Chunks-set _ _) (λ q. sort-eq_of_permᴰ q d)

pub runs_from-enumerate : (i : ℕ) (vs : List Str) → runs_from i (enumerate i vs) ≡ true
unfolding runs_from
runs_from-enumerate i [] = refl
runs_from-enumerate i (v ∷ vs) = ground (arith, runs_from-enumerate (suc i) vs)

pub enumerate_of_runs_from :
    (i : ℕ) (l : List Chunk) → runs_from i l ≡ true → l ≡ enumerate i (values l)
unfolding runs_from
enumerate_of_runs_from i [] h = refl
enumerate_of_runs_from i ((j, v) ∷ l) h = ground (arith, enumerate_of_runs_from (suc i) l)

insert-enumerate :
    (i : ℕ) (v : Str) (vs : List Str)
    → insert (i, v) (enumerate (suc i) vs) ≡ (i, v) ∷ enumerate (suc i) vs
unfolding insert
insert-enumerate i v [] = refl
insert-enumerate i v (w ∷ ws) = ground arith

pub sort-enumerate : (i : ℕ) (vs : List Str) → sort (enumerate i vs) ≡ enumerate i vs
unfolding sort
sort-enumerate i [] = refl
sort-enumerate i (v ∷ vs) = rw (sort-enumerate (suc i) vs) (insert-enumerate i v vs)

le_of_mem-enumerate : (i k : ℕ) (vs : List Str) → Mem k (keys (enumerate i vs)) → i ≤ k
le_of_mem-enumerate i k [] m = absurd (not-mem-nil m)
le_of_mem-enumerate i k (v ∷ vs) m =
    Or.elim le_prop (eq-or-mem_of_mem-cons m) (λ e. omega arith)
      (λ t. omega (arith, le_of_mem-enumerate (suc i) k vs t))

enumerate-Nodup : (i : ℕ) (vs : List Str) → Nodup (keys (enumerate i vs))
enumerate-Nodup i [] = Nodup-nil
enumerate-Nodup i (v ∷ vs) =
    Nodup-cons.1
      (λ m. omega (arith, le_of_mem-enumerate (suc i) i vs m), enumerate-Nodup (suc i) vs)

pub concat-enumerate : (i : ℕ) (vs : List Str) → concat (enumerate i vs) ≡ joined vs
unfolding concat
concat-enumerate i [] = refl
concat-enumerate i (v ∷ vs) = ap (◌++◌ v) (concat-enumerate (suc i) vs)

-- Whatever order the chunks of `vs` arrive in, sorting restores them.
pub sort_of_perm-enumerate :
    {l : List Chunk} (vs : List Str) → Perm l (enumerate 0 vs) → sort l ≡ enumerate 0 vs
sort_of_perm-enumerate vs p =
    sym (sort-eq_of_perm (Perm.symm p) (enumerate-Nodup 0 vs)) ∙ sort-enumerate 0 vs
