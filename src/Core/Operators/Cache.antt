-- ===== src/Core/Operators/Cache.antt =====
-- packages/core/src/operators.ts: the cache of compiled patterns.
use flagship_platform.Shared.{◌≡◌, refl, Option, none, some, [], arith, Option-cases, inl, inr}
use flagship_platform.Js.Text.{JsString, str_eq_iff}
use flagship_platform.Js.Map.{JsMap, get, set, get-set}
use flagship_platform.Js.Host.{Regex, Host}

-- `null` in the cache is a pattern that does not compile.
abbrev pub RegexCache : Type 0
RegexCache = JsMap (Option Regex)

abbrev pub empty_cache : RegexCache
empty_cache = []

module _ (host : Host) where
  -- compileRegex(pattern), and the cache that it leaves.
  unfoldable pub compile_regex : RegexCache → JsString → Option Regex × RegexCache
  compile_regex cache pattern = elim (get cache pattern) [
    | some cached ↦ (cached, cache)
    | none ↦ let compiled = host.new_regex pattern in (compiled, set cache pattern compiled)
  ]

  -- Each entry is what compiling its pattern gives.
  pub record IsCoherent (cache : RegexCache) : Type 0 where
    pub entry :
        (pattern : JsString) (compiled : Option Regex)
        → get cache pattern ≡ some compiled
        → compiled ≡ host.new_regex pattern

  -- The cache of compiled patterns never changes what a pattern means: from a coherent cache the answer is that of the
  -- constructor, and the cache stays coherent.
  pub compile_regex-IsCoherent :
      (cache : RegexCache) (pattern : JsString)
      → IsCoherent cache
      → ((compile_regex cache pattern).0 ≡ host.new_regex pattern)
        × IsCoherent (compile_regex cache pattern).1
  unfolding compile_regex
  compile_regex-IsCoherent cache pattern h = elim (Option-cases (get cache pattern)) [
    | inl missing ↦
        rw (missing, compile_regex)
          (
            refl,
            record {
              entry = λ p c e. ground (
                arith,
                get-set cache pattern p (host.new_regex pattern),
                str_eq_iff pattern p,
                h.entry p c,
              );
            },
          )
    | inr (cached, found) ↦ rw (found, compile_regex) (h.entry pattern cached found, h)
  ]

  pub IsCoherent-empty : IsCoherent empty_cache
  IsCoherent-empty = record { entry = λ p c e. unfold get in cc }
