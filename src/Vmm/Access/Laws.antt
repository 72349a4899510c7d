-- ===== src/Vmm/Access/Laws.antt =====
-- What reaches the kernel from user memory, and what reaches user memory.
use my_unix.Base.{
  ℕ, zero, suc, ◌+◌, ◌-◌, ◌≤◌, ◌<◌, ◌≡◌, ◌≢◌, refl, ◌∙◌, ◌⊎◌, inl, inr, true, false, ◌==◌, leb,
  if◌then◌else◌, arith, Bool-cases,
}
use my_unix.Base.Errno.{e2big, efault}
use my_unix.Base.Int.{ℤ, pos, neg}
use my_unix.Base.Maps.{update}
use my_unix.Base.Word.{word_mod}
use my_unix.Strings.{Mem, memcpy}
use my_unix.Strings.Memory.{in_block, memcpy_lem}
use my_unix.Vmm.Access.{
  vmm_user_end, access_ok, copy_from_user, copy_to_user, copy_string, strncpy_from_user,
}

-- `m'` has, at the places from `i` up to `e` of the block at `dst`, the bytes that `m` has at those places of the block
-- at `src`; all other bytes are as in `m`.
pub record Copied (m m' : Mem) (dst src i e : ℕ) : Type 0 where
  pub inside : (j : ℕ) → i ≤ j → j < e → m' (dst + j) ≡ m (src + j)
  pub outside : (a : ℕ) → (a < dst + i) ⊎ (dst + e ≤ a) → m' a ≡ m a

abbrev pub Apart : ℕ → ℕ → ℕ → Type 0
Apart dst src n = (dst + n ≤ src) ⊎ (src + n ≤ dst)

-- How a copy of the places from `i` up to `i + n` ends: behind a terminator, or with none in reach.
abbrev pub Ends : (m m' : Mem) (dst src i n : ℕ) (r : ℤ) → Type 0
Ends m m' dst src i n r =
    ((k : ℕ) × (r ≡ pos k)
      × (i ≤ k)
      × (k < i + n)
      × (m (src + k) ≡ 0)
      × ((j : ℕ) → i ≤ j → j < k → m (src + j) ≢ 0)
      × Copied m m' dst src i (k + 1))
    ⊎ ((r ≡ neg e2big)
        × ((j : ℕ) → i ≤ j → j < i + n → m (src + j) ≢ 0)
        × Copied m m' dst src i (i + n))

module _ (m : Mem) (dst src i n : ℕ) (apart : Apart dst src (i + suc n)) where
  abbrev first : Mem
  first = update m (dst + i) (m (src + i))

  same_source : (j : ℕ) → j < i + suc n → first (src + j) ≡ m (src + j)
  same_source j h = elim apart [ inl before ↦ ground (arith, h) | inr behind ↦ ground (arith, h) ]

  Copied-one : Copied m first dst src i (i + 1)
  Copied-one = record {
    inside = λ j l h. let e : j ≡ i = omega arith in rw e (ground arith);
    outside = λ a o. elim o [ inl l ↦ ground arith | inr l ↦ ground arith ];
  }

  Copied-cons :
      {m' : Mem} {e : ℕ}
      → i < e
      → e ≤ i + suc n
      → Copied first m' dst src (i + 1) e
      → Copied m m' dst src i e
  Copied-cons {m'} {e} l h c = record {
    inside = λ j a b. elim (Bool-cases (j == i)) [
      | inl same ↦
          let eq : j ≡ i = ground arith in
          rw eq (c.outside (dst + i) (inl (omega arith)) ∙ ground arith)
      | inr other ↦ c.inside j (ground arith) b ∙ same_source j (omega arith)
    ];
    outside = λ a o. elim o [
      | inl k ↦ c.outside a (inl (omega arith)) ∙ ground arith
      | inr k ↦ c.outside a (inr k) ∙ ground arith
    ];
  }

  Ends-cons :
      {m' : Mem} {r : ℤ}
      → m (src + i) ≢ 0
      → Ends first m' dst src (i + 1) n r
      → Ends m m' dst src i (suc n) r
  Ends-cons {m'} nz (inl (k, e, l, u, z, none_before, c)) = inl (
    k,
    e,
    omega arith,
    omega arith,
    ground (arith, same_source k (omega arith)),
    λ j a b. elim (Bool-cases (j == i)) [
      | inl same ↦ let eq : j ≡ i = ground arith in rw eq nz
      | inr other ↦ rw (← (same_source j (omega arith))) (none_before j (ground arith) b)
    ],
    Copied-cons (omega arith) (omega arith) c,
  )
  Ends-cons {m'} nz (inr (e, no_zero, c)) = inr (
    e,
    λ j a b. elim (Bool-cases (j == i)) [
      | inl same ↦ let eq : j ≡ i = ground arith in rw eq nz
      | inr other ↦ rw (← (same_source j (omega arith))) (no_zero j (ground arith) (omega arith))
    ],
    Copied-cons (omega arith) (omega arith) (rw long c),
  )
    where
      long : i + suc n ≡ i + 1 + n
      long = omega arith

copy_string_lem :
    (m : Mem) (dst src i n : ℕ)
    → Apart dst src (i + n)
    → Ends m (copy_string m dst src i n).1 dst src i n (copy_string m dst src i n).0
unfolding copy_string
copy_string_lem m dst src i zero apart = inr (
  refl,
  λ j l h. absurd (omega arith),
  record { inside = λ j l h. absurd (omega arith); outside = λ a o. refl },
)
copy_string_lem m dst src i (suc n) apart =
    let m1 = first m dst src i n apart in
    elim (Bool-cases (m1 (dst + i) == 0)) [
      | inl end ↦ rw end (
          inl (
            i,
            refl,
            omega arith,
            omega arith,
            ground arith,
            λ j l h. absurd (omega arith),
            Copied-one m dst src i n apart,
          ))
      | inr more ↦ rw more (
          Ends-cons m dst src i n apart (ground arith)
            (copy_string_lem m1 dst src (i + 1) n (rw shift apart)))
    ]
  where
    shift : i + 1 + n ≡ i + suc n
    shift = omega arith

access_ok_lem :
    (start size : ℕ)
    → start < word_mod
    → size < word_mod
    → start + size ≤ vmm_user_end
    → access_ok start size ≡ true
unfolding access_ok
access_ok_lem start size h k fits = ground arith

access_bad :
    (start size : ℕ)
    → start < word_mod
    → size < word_mod
    → vmm_user_end < start + size
    → access_ok start size ≡ false
unfolding access_ok
access_bad start size h k large = ground arith

-- strncpy_from_user to a buffer apart from the string: -EFAULT, nothing written, if the string starts outside user
-- memory; otherwise either it returns the string's length, below `maxlen`, with the string and its terminator copied
-- and nothing else written, or it returns -E2BIG, with `maxlen` bytes copied, exactly if none of them is zero.
strncpy_from_user_lem :
    (m : Mem) (dst src maxlen : ℕ)
    → src < word_mod
    → Apart dst src maxlen
    → ((vmm_user_end ≤ src) × (strncpy_from_user m dst src maxlen ≡ (neg efault, m)))
      ⊎ ((src < vmm_user_end)
          × Ends m
              (strncpy_from_user m dst src maxlen).1
              dst
              src
              0
              maxlen
              (strncpy_from_user m dst src maxlen).0)
unfolding strncpy_from_user access_ok
strncpy_from_user_lem m dst src maxlen h apart = elim (Bool-cases (access_ok src 1)) [
  | inl ok ↦ inr (ground arith, rw ok (copy_string_lem m dst src 0 maxlen (rw from_zero apart)))
  | inr bad ↦ inl (ground arith, rw bad refl)
]
  where
    from_zero : 0 + maxlen ≡ maxlen
    from_zero = omega arith

-- What a copy between the blocks at `dst` and `src` comes to when the one at `user` must lie in user memory.
abbrev pub Transfer : (m : Mem) (dst src len user : ℕ) (r : ℤ × Mem) → Type 0
Transfer m dst src len user r =
    ((user + len ≤ vmm_user_end) × (r.0 ≡ pos 0) × Copied m r.1 dst src 0 len)
    ⊎ ((vmm_user_end < user + len) × (r ≡ (neg efault, m)))

-- copy_from_user of a range inside user memory copies its bytes, as they were, to a place that does not lie within the
-- range behind its start, and copy_to_user copies to such a range; for a range that leaves user memory or wraps, both
-- are -EFAULT and write nothing.
pub copy_user_lem :
    (m : Mem) (dst src len : ℕ)
    → dst < word_mod
    → src < word_mod
    → len < word_mod
    → (dst ≤ src) ⊎ (src + len ≤ dst)
    → Transfer m dst src len src (copy_from_user m dst src len)
      × Transfer m dst src len dst (copy_to_user m dst src len)
unfolding copy_from_user copy_to_user
copy_user_lem m dst src len hd hs hl order = (
  elim (Bool-cases (leb (src + len) vmm_user_end)) [
    | inl fits ↦
        let ok = access_ok_lem src len hs hl (ground arith) in
        inl (ground arith, rw ok refl, rw ok copied)
    | inr large ↦ inr (ground arith, rw (access_bad src len hs hl (ground arith)) refl)
  ],
  elim (Bool-cases (leb (dst + len) vmm_user_end)) [
    | inl fits ↦
        let ok = access_ok_lem dst len hd hl (ground arith) in
        inl (ground arith, rw ok refl, rw ok copied)
    | inr large ↦ inr (ground arith, rw (access_bad dst len hd hl (ground arith)) refl)
  ],
)
  where
    copied : Copied m (memcpy m dst src len) dst src 0 len
    copied = record {
      inside = λ j l h. memcpy_lem m dst src len (dst + j) order ∙ ground_inside j h;
      outside = λ a o. memcpy_lem m dst src len a order ∙ ground_outside a o;
    }
      where
        ground_inside :
            (j : ℕ)
            → j < len
            → (if in_block dst len (dst + j) then m (src + (dst + j - dst)) else m (dst + j))
              ≡ m (src + j)
        ground_inside j h = let e : dst + j - dst ≡ j = omega arith in rw e (ground arith)

        ground_outside :
            (a : ℕ)
            → (a < dst + 0) ⊎ (dst + len ≤ a)
            → (if in_block dst len a then m (src + (a - dst)) else m a) ≡ m a
        ground_outside a (inl h) = ground arith
        ground_outside a (inr h) = ground arith
