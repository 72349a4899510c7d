-- ===== src/Base/Maps.antt =====
-- Functions from numbers as arrays and tables: the C arrays whose bounds the code itself checks.
use my_unix.Base.{ℕ, if◌then◌else◌, ◌==◌}

-- `f[k] = v`
abbrev pub update {ℓ} : {A : Type ℓ} → (ℕ → A) → ℕ → A → ℕ → A
update f k v j = if k == j then v else f j
