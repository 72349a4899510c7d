-- ===== src/Vmm/User/Laws.antt =====
-- The search of vmm_alloc_user for room ends, and what it finds is free.
use my_unix.Base.{
  ℕ, zero, suc, ◌+◌, ◌*◌, ◌≤◌, ◌<◌, ◌≡◌, refl, ◌⊎◌, inl, inr, ◌==◌, leb, none, some, arith,
  Bool-cases, Option-cases,
}
use my_unix.Base.Word.{add64, page_size}
use my_unix.Pmm.{Pmm}
use my_unix.Vmm.{Space}
use my_unix.Vmm.Access.{vmm_user_end}
use my_unix.Vmm.Tables.{translate, is_mapped}
use my_unix.Vmm.User.{page_at, first_mapped, find_room}

first_mapped-none :
    (space : Space) (s : Pmm) (virt i n : ℕ)
    → first_mapped space s virt i n ≡ none
    → (j : ℕ) → i ≤ j
    → j < i + n
    → translate space s (page_at virt j) ≡ 0
unfolding first_mapped
first_mapped-none space s virt i zero e j l m = absurd (omega arith)
first_mapped-none space s virt i (suc n) e j l m = elim (Bool-cases (i == j)) [
  | inl same ↦ let eq : i ≡ j = ground arith in rw (← eq) (ground arith)
  | inr other ↦
      first_mapped-none space s virt (i + 1) n (ground arith) j (ground arith) (omega arith)
]

first_mapped-some :
    (space : Space) (s : Pmm) (virt i n r : ℕ) → first_mapped space s virt i n ≡ some r → r < i + n
unfolding first_mapped
first_mapped-some space s virt i zero r e = absurd (ground arith)
first_mapped-some space s virt i (suc n) r e =
    elim (Bool-cases (is_mapped space s (page_at virt i))) [
      | inl here ↦ ground arith
      | inr free ↦ omega (arith, first_mapped-some space s virt (i + 1) n r (ground arith))
    ]

-- The room found: a range of user memory behind the hint, no page of which leads anywhere.
pub record Room (space : Space) (s : Pmm) (hint n virt : ℕ) : Type 0 where
  pub behind : hint ≤ virt
  pub in_user : virt + n * page_size ≤ vmm_user_end
  pub unmapped : (j : ℕ) → j < n → translate space s (page_at virt j) ≡ 0

-- The search for room from a hint in user memory ends within as many rounds as there are pages from the hint to the
-- end of user memory, and one more: it finds a range of user memory, behind the hint, no page of which leads anywhere,
-- or says that there is none.
find_room_lem :
    (fuel : ℕ) (space : Space) (s : Pmm) (virt n : ℕ)
    → virt ≤ vmm_user_end
    → n * page_size ≤ vmm_user_end
    → vmm_user_end < virt + fuel * page_size
    → (find_room fuel space s virt (n * page_size) n ≡ some none)
      ⊎ ((r : ℕ) × (find_room fuel space s virt (n * page_size) n ≡ some (some r))
          × Room space s virt n r)
unfolding find_room
find_room_lem zero space s virt n h k enough = absurd (omega arith)
find_room_lem (suc fuel) space s virt n h k enough =
    elim (Bool-cases (leb (add64 virt (n * page_size)) vmm_user_end)) [
      | inr past ↦ inl (rw past refl)
      | inl fits ↦
          let inside : virt + n * page_size ≤ vmm_user_end = ground arith in
          elim (Option-cases (first_mapped space s virt 0 n)) [
            | inl e ↦ inr (
              virt,
              rw (fits, e) refl,
              record {
                behind = omega arith;
                in_user = inside;
                unmapped =
                    λ j m. first_mapped-none space s virt 0 n e j (omega arith) (omega arith);
              },
            )
            | inr (i, e) ↦
                let l = first_mapped-some space s virt 0 n i e in
                let sum : add64 virt ((i + 1) * page_size) ≡ virt + (i + 1) * page_size =
                  omega arith in
                rw (fits, e, sum)
                  (elim (find_room_lem fuel space s (virt + (i + 1) * page_size) n (omega arith) k
                    (omega arith)) [
                      | inl none_left ↦ inl none_left
                      | inr (r, found, room) ↦ inr (
                        r,
                        found,
                        record {
                          behind = omega (arith, room.behind);
                          in_user = room.in_user;
                          unmapped = room.unmapped;
                        },
                      )
                    ])
          ]
    ]
