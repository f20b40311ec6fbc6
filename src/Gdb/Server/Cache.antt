-- ===== src/Gdb/Server/Cache.antt =====
-- gdb-server.c: the description of the caches of the M7, and their flush.
pub mod Log2
use libstlink.Prelude.{
  ℕ, zero, suc, ◌+◌, ◌-◌, ◌*◌, ◌/◌, ◌^◌, ◌&&◌, ◌||◌, Bool, true, false, not, Option, none, some,
  List, [], ◌∷◌, bit_and, bit_or, get_or, set, ltb, ◌==◌, if◌then◌else◌,
}
use libstlink.Word.{add32, shl32, shr32, is_set}
use libstlink.Registers.Debug
use libstlink.Stlink.{Stlink, M, pure, get, ◌>>=◌, ◌>>◌}
use libstlink.Stlink.ReadWrite.{stlink_read_debug32, stlink_write_debug32}

pub record CacheLevelDesc : Type 0 where
  pub nsets : ℕ
  pub nways : ℕ
  pub log2_nways : ℕ
  pub width : ℕ

-- `used` as a Boolean; seven levels of each cache.
pub record CacheDesc : Type 0 where
  pub used : Bool
  pub dminline : ℕ
  pub iminline : ℕ
  pub louu : ℕ
  pub icache : List CacheLevelDesc
  pub dcache : List CacheLevelDesc

abbrev pub no_level : CacheLevelDesc
no_level = record { nsets = 0; nways = 0; log2_nways = 0; width = 0 }

-- for(res = 0; (1U << res) < v; res++), with a bound on the rounds.
unfoldable pub log2_from : ℕ → ℕ → ℕ → Option ℕ
log2_from zero v res = none
log2_from (suc fuel) v res =
    let rest = log2_from fuel v (suc res) in if ltb (shl32 1 res) v then rest else some res

-- 33 rounds are enough for a value up to 2^31. Above it the shift of the source would be by 32 bits.
unfoldable pub ceil_log2 : ℕ → Option ℕ
unfolding log2_from
ceil_log2 v = log2_from 33 v 0

unfoldable pub or_stuck : {A : Type 0} → Option A → M A
or_stuck none = λ sl. none
or_stuck (some a) = pure a

unfoldable pub read_cache_level_desc : M CacheLevelDesc
unfolding stlink_read_debug32 ceil_log2 or_stuck
read_cache_level_desc = do
  (ret, ccsidr) ← stlink_read_debug32 Debug.ccsidr
  let nsets = bit_and (shr32 ccsidr 13) 0x3fff + 1
  let nways = bit_and (shr32 ccsidr 3) 0x1ff + 1
  log2_nways ← or_stuck (ceil_log2 nways)
  log2_nsets ← or_stuck (ceil_log2 nsets)
  pure (record {
    nsets = nsets;
    nways = nways;
    log2_nways = log2_nways;
    width = 4 + bit_and ccsidr 7 + log2_nsets;
  })

abbrev has_data : ℕ → Bool
has_data ct = (ct == 2) || (ct == 3) || (ct == 4)

abbrev has_instructions : ℕ → Bool
has_instructions ct = (ct == 1) || (ct == 3)

-- One description, kept with its width 0 where the level has no such cache.
read_level : Bool → ℕ → CacheLevelDesc → M CacheLevelDesc
unfolding stlink_write_debug32 read_cache_level_desc
read_level present selector old =
    if present
    then (do stlink_write_debug32 Debug.csselr selector; read_cache_level_desc)
    else pure (record old { width = 0 })

-- The rounds i, i + 1, … of the loop over the levels.
unfoldable pub read_levels : ℕ → ℕ → ℕ → CacheDesc → M CacheDesc
unfolding read_level
read_levels zero i clidr desc = pure desc
read_levels (suc left) i clidr desc = do
  let ct = bit_and (shr32 clidr (3 * i)) 0x07
  d ← read_level (has_data ct) (i * 2) (get_or desc.dcache i no_level)
  c ← read_level (has_instructions ct) (bit_or (i * 2) 1) (get_or desc.icache i no_level)
  read_levels left (suc i) clidr
      (record desc { dcache = set desc.dcache i d; icache = set desc.icache i c })

-- The read of CCR is for the log.
unfoldable pub init_cache : CacheDesc → M CacheDesc
unfolding stlink_read_debug32 read_levels
init_cache desc = do
  (ret₁, ctr) ← stlink_read_debug32 Debug.ctr
  if not (shr32 ctr 29 == 0x04) then pure (record desc { used = false }) else (do
    (ret₂, clidr) ← stlink_read_debug32 Debug.clidr
    (ret₃, ccr) ← stlink_read_debug32 Debug.ccr
    read_levels 7 0 clidr (record desc {
      used = true;
      dminline = shl32 4 (bit_and (shr32 ctr 16) 0x0f);
      iminline = shl32 4 (bit_and ctr 0x0f);
      louu = bit_and (shr32 clidr 27) 7;
    }))

-- The loop over the ways of a set: `way` counts up to `way + left`.
unfoldable pub clean_ways : ℕ → ℕ → ℕ → ℕ → M (Unit {0})
unfolding stlink_write_debug32
clean_ways zero way way_sh addr = pure tt
clean_ways (suc left) way way_sh addr = do
  stlink_write_debug32 Debug.dccsw (bit_or addr (shl32 way way_sh))
  clean_ways left (suc way) way_sh addr

-- The loop over the sets, from `addr` on; the first number bounds its rounds.
unfoldable pub clean_sets : ℕ → CacheDesc → CacheLevelDesc → ℕ → M (Unit {0})
unfolding clean_ways
clean_sets zero desc level addr = λ sl. none
clean_sets (suc fuel) desc level addr = elim (ltb addr (shl32 1 level.width)) [
  | true ↦ (do
    clean_ways level.nways 0 (32 - level.log2_nways) addr
    clean_sets fuel desc level (add32 addr desc.dminline))
  | false ↦ pure tt
]

-- The levels below `levels`, from the last one down.
unfoldable pub clean_levels : ℕ → CacheDesc → ℕ → M (Unit {0})
unfolding clean_sets
clean_levels fuel desc zero = pure tt
clean_levels fuel desc (suc level) = do
  clean_sets fuel desc (get_or desc.dcache level no_level) (level * 2)
  clean_levels fuel desc level

unfoldable pub cache_flush : ℕ → CacheDesc → ℕ → M (Unit {0})
unfolding clean_levels stlink_write_debug32
cache_flush fuel desc ccr = do
  if is_set (bit_and ccr Debug.ccr_dc) then clean_levels fuel desc desc.louu else pure tt
  if is_set (bit_and ccr Debug.ccr_ic)
      then (do stlink_write_debug32 Debug.iciallu 0; pure tt)
      else pure tt

-- The flag `cache_modified` after the call.
unfoldable pub cache_change : ℕ → ℕ → Bool → Bool
cache_change start count cache_modified = if count == 0 then cache_modified else true

unfoldable pub cache_sync : ℕ → CacheDesc → Bool → M Bool
unfolding stlink_read_debug32 cache_flush
cache_sync fuel desc cache_modified =
    if not desc.used || not cache_modified then pure cache_modified else (do
      (ret, ccr) ← stlink_read_debug32 Debug.ccr
      if is_set (bit_and ccr (bit_or Debug.ccr_ic Debug.ccr_dc))
          then cache_flush fuel desc ccr
          else pure tt
      pure false)
