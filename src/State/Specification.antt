-- ===== src/State/Specification.antt =====
-- The hard forks in order of activation (crates/primitives/src/specification.rs, the enum without
-- the `optimism` feature).
use sabvm.Prelude.{ℕ, Bool, leb}

pub data SpecId : Type 0 where
  frontier frontier_thawing homestead dao_fork tangerine spurious_dragon byzantium : SpecId
  constantinople petersburg istanbul muir_glacier berlin london arrow_glacier : SpecId
  gray_glacier merge shanghai cancun prague latest : SpecId

-- The discriminant, `self as u8`.
abbrev pub to_u8 : SpecId → ℕ
to_u8 frontier = 0
to_u8 frontier_thawing = 1
to_u8 homestead = 2
to_u8 dao_fork = 3
to_u8 tangerine = 4
to_u8 spurious_dragon = 5
to_u8 byzantium = 6
to_u8 constantinople = 7
to_u8 petersburg = 8
to_u8 istanbul = 9
to_u8 muir_glacier = 10
to_u8 berlin = 11
to_u8 london = 12
to_u8 arrow_glacier = 13
to_u8 gray_glacier = 14
to_u8 merge = 15
to_u8 shanghai = 16
to_u8 cancun = 17
to_u8 prague = 18
to_u8 latest = 255

-- `SpecId::enabled(our, other)`, also `our.is_enabled_in(other)`
unfoldable pub enabled : SpecId → SpecId → Bool
enabled our other = leb (to_u8 other) (to_u8 our)
