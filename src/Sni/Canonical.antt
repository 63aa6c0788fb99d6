-- ===== src/Sni/Canonical.antt =====
-- src/sni.rs: what a JA4 fingerprint does not depend on.
use symphony.Prelude.{
  length, Bytes, ◌==◌, if◌then◌else◌, Option-cases, ℕ, suc, ◌≡◌, refl, ap, ◌∙◌, Bool, true, false,
  ◌||◌, List, [], ◌∷◌, arith,
}
use mathlib.Core.List.{Permᴰ}
use mathlib.Core.List.Permᴰ
use symphony.Sni.Ja3.{u16s, skip_grease, fingerprinted}
use symphony.Sni.Ja4.{
  insert, sort, ja4_round, ja4_lists, Ja4Lists, hashed_ids, part_a, compute_ja4, contains,
}

insert-insert : (v w : ℕ) (l : List ℕ) → insert v (insert w l) ≡ insert w (insert v l)
unfolding insert
insert-insert v w [] = ground arith
insert-insert v w (x ∷ l) = ground (arith, insert-insert v w l)

sort-Perm : {l l' : List ℕ} → Permᴰ l l' → sort l ≡ sort l'
unfolding sort
sort-Perm Permᴰ.nil = refl
sort-Perm (Permᴰ.cons {b = b} {l₁ = l} e d) = rw e (ap (insert b) (sort-Perm d))
sort-Perm (Permᴰ.swap {a' = a'} {b' = b'} {l = l} e e') = rw (e, e') (insert-insert b' a' (sort l))
sort-Perm (Permᴰ.trans d d') = sort-Perm d ∙ sort-Perm d'

length-Perm : {l l' : List ℕ} → Permᴰ l l' → length l ≡ length l'
length-Perm Permᴰ.nil = refl
length-Perm (Permᴰ.cons e d) = ap suc (length-Perm d)
length-Perm (Permᴰ.swap e e') = refl
length-Perm (Permᴰ.trans d d') = length-Perm d ∙ length-Perm d'

-- The same extensions in another order, where no two of one type change places.
pub data Reorders : List (ℕ × Bytes) → List (ℕ × Bytes) → Type 0 where
  same : (exts : List (ℕ × Bytes)) → Reorders exts exts
  behind :
      (ext : ℕ × Bytes) {exts exts' : List (ℕ × Bytes)}
      → Reorders exts exts'
      → Reorders (ext ∷ exts) (ext ∷ exts')
  swapped :
      (a b : ℕ) (x y : Bytes) (exts : List (ℕ × Bytes))
      → (a == b) ≡ false
      → Reorders ((a, x) ∷ (b, y) ∷ exts) ((b, y) ∷ (a, x) ∷ exts)
  after :
      {exts exts' exts'' : List (ℕ × Bytes)}
      → Reorders exts exts'
      → Reorders exts' exts''
      → Reorders exts exts''

-- What a fingerprint takes of the lists, but for the order of the identifiers.
record Alike (l l' : Ja4Lists) : Type 0 where
  ids : Permᴰ l.ext_ids l'.ext_ids
  versions : l.supported_versions ≡ l'.supported_versions
  alpn : l.alpn_first ≡ l'.alpn_first
  algs : l.sig_algs ≡ l'.sig_algs

ja4_lists-swap :
    (a b : ℕ) (x y : Bytes) (later : Ja4Lists)
    → (a == b) ≡ false
    → Alike (ja4_round a x (ja4_round b y later)) (ja4_round b y (ja4_round a x later))
unfolding ja4_round
ja4_lists-swap a b x y later h = record {
  ids = Permᴰ.swap refl refl;
  versions = ground arith;
  alpn = ground (arith, Option-cases later.alpn_first);
  algs = ground arith;
}

ja4_lists-Reorders :
    {exts exts' : List (ℕ × Bytes)} → Reorders exts exts' → Alike (ja4_lists exts) (ja4_lists exts')
unfolding ja4_lists ja4_round
ja4_lists-Reorders (same exts) = record {
  ids = Permᴰ.refl (ja4_lists exts).ext_ids;
  versions = refl;
  alpn = refl;
  algs = refl;
}
ja4_lists-Reorders (behind (ty, x) r) =
    let l = ja4_lists-Reorders r in
    record {
      ids = Permᴰ.cons refl l.ids;
      versions = rw (l.versions) refl;
      alpn = rw (l.alpn) refl;
      algs = rw (l.algs) refl;
    }
ja4_lists-Reorders (swapped a b x y exts h) = ja4_lists-swap a b x y (ja4_lists exts) h
ja4_lists-Reorders (after r r') =
    let l = ja4_lists-Reorders r in
    let l' = ja4_lists-Reorders r' in
    record {
      ids = Permᴰ.trans l.ids l'.ids;
      versions = l.versions ∙ l'.versions;
      alpn = l.alpn ∙ l'.alpn;
      algs = l.algs ∙ l'.algs;
    }

abbrev skipped : ℕ → Bool
skipped t = t == 0x0000 || t == 0x0010

skip-cons :
    (skips : Bool) (a : ℕ) {l l' : List ℕ}
    → Permᴰ l l'
    → Permᴰ (if skips then l else a ∷ l) (if skips then l' else a ∷ l')
skip-cons true a d = d
skip-cons false a d = Permᴰ.cons refl d

skip-swap :
    (s t : Bool) (a b : ℕ) (l : List ℕ)
    → let without_a = if s then l else a ∷ l in
      let without_b = if t then l else b ∷ l in
      Permᴰ (if s then without_b else a ∷ without_b) (if t then without_a else b ∷ without_a)
skip-swap true true a b l = Permᴰ.refl l
skip-swap true false a b l = Permᴰ.refl (b ∷ l)
skip-swap false true a b l = Permᴰ.refl (a ∷ l)
skip-swap false false a b l = Permᴰ.swap refl refl

hashed_ids-Perm : {l l' : List ℕ} → Permᴰ l l' → Permᴰ (hashed_ids l) (hashed_ids l')
unfolding hashed_ids
hashed_ids-Perm Permᴰ.nil = Permᴰ.nil
hashed_ids-Perm (Permᴰ.cons {b = b} e d) = rw e (skip-cons (skipped b) b (hashed_ids-Perm d))
hashed_ids-Perm (Permᴰ.swap {a' = a'} {b' = b'} {l = l} e e') =
    rw (e, e') (skip-swap (skipped b') (skipped a') b' a' (hashed_ids l))
hashed_ids-Perm (Permᴰ.trans d d') = Permᴰ.trans (hashed_ids-Perm d) (hashed_ids-Perm d')

contains-Perm : (v : ℕ) {l l' : List ℕ} → Permᴰ l l' → contains v l ≡ contains v l'
contains-Perm v Permᴰ.nil = refl
contains-Perm v (Permᴰ.cons {b = b} e d) = rw (e, contains-Perm v d) refl
contains-Perm v (Permᴰ.swap e e') = ground (arith, e, e')
contains-Perm v (Permᴰ.trans d d') = contains-Perm v d ∙ contains-Perm v d'

part_a-Alike :
    (version : ℕ) {ciphers ciphers' : List ℕ} {l l' : Ja4Lists}
    → Permᴰ ciphers ciphers'
    → Alike l l'
    → part_a version ciphers l ≡ part_a version ciphers' l'
unfolding part_a
part_a-Alike version c l =
    rw (length-Perm c, length-Perm l.ids, contains-Perm 0 l.ids, l.versions, l.alpn) refl

-- A client that shuffles its cipher suites or its extensions, or that varies the GREASE values
-- among them, keeps its JA4 fingerprint: it depends on the suites other than GREASE up to their
-- order, and on the extensions other than GREASE up to an order that moves no two of one type.
pub compute_ja4-reordered :
    (sha256 : Bytes → Bytes) (version : ℕ) (suites suites' exts exts' : Bytes)
    → Permᴰ (skip_grease (u16s suites)) (skip_grease (u16s suites'))
    → Reorders (fingerprinted exts) (fingerprinted exts')
    → compute_ja4 sha256 version suites exts ≡ compute_ja4 sha256 version suites' exts'
unfolding compute_ja4
compute_ja4-reordered sha256 version suites suites' exts exts' c r =
    let l = ja4_lists-Reorders r in
    rw (part_a-Alike version c l, sort-Perm c, sort-Perm (hashed_ids-Perm l.ids), l.algs) refl
