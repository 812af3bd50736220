-- ===== src/Tests/Parser.antt =====
-- pparser/proc_human_parser.go at concrete inputs.
use procstats.Base.{
  ◌^◌, ◌≡◌, refl, false, not, ◌&&◌, List, [], ◌∷◌, none, some, Bytes, codes, lookup, insert, equal,
}
use procstats.Base.Int.{ℤ, pos, negsuc, ◌*ℤ◌, ltb_ℤ, wrap64}
use procstats.Go.Float.{Float64}
use procstats.Go.Strconv.{parse_int, parse_uint}
use procstats.Go.Spaces.{trim_space}
use procstats.Go.Strings.{cut, lines}
use procstats.Pparser.Index.{new_parser, field_index}
use procstats.Pparser.Parse.{parse, trim_string_with_multiplier}
use procstats.Pparser.Setters.{done, failed, overflow, field_kind, set_int_field, set_uint_field}
use procstats.Pparser.Typed.Parse.{parse-WellTyped, parse-IsPanicFree}
use procstats.Pparser.Typed.{WellTyped, left_by, IsPanicFree}
use procstats.Pparser.Types.{
  string, int64, uint8, plain, mapping, Field, int_value, uint_value, scalar_value, map_value,
  Struct,
}

-- A stand-in for float64, for the tests: whole numbers.
abbrev pub whole : Float64
whole = record {
  Carrier = ℤ;
  of_int = λ n. n;
  mul = ◌*ℤ◌;
  div = λ a b. a;
  lt = ltb_ℤ;
  eq = λ a b. not (ltb_ℤ a b) && not (ltb_ℤ b a);
  inf = pos (2 ^ 1024);
  parse_float = parse_int 64;
  overflow_float = λ b x. false;
}

abbrev pub stat : List Field
stat =
    record { name = codes "Anon"; tag = some (codes "anon"); type = plain int64 }
    ∷ record { name = codes "Umask"; tag = none; type = plain uint8 }
    ∷ record {
      name = codes "UnknownFields";
      tag = some (codes "skip,unknown");
      type = mapping string int64;
    }
    ∷ []

abbrev pub empty_stat : Struct ℤ
empty_stat = scalar_value (int_value (pos 0)) ∷ scalar_value (uint_value 0) ∷ map_value none ∷ []

abbrev pub content : Bytes
content = codes "anon: 3 kB\nUmask:\t18\nother: -7\n"

parse-content :
    parse whole (new_parser stat (codes ":")) content empty_stat
    ≡ done (
        scalar_value (int_value (pos 3072))
        ∷ scalar_value (uint_value 18)
        ∷ map_value (some ((codes "other", int_value (negsuc 6)) ∷ []))
        ∷ [])
unfolding parse new_parser lines cut field_kind lookup field_index equal insert parse_int parse_uint
    trim_string_with_multiplier trim_space set_int_field set_uint_field wrap64 ◌*ℤ◌
parse-content = refl

-- (2^54 + 1) kB, whose bytes are 1024 more than 2^64.
kilo_wraps :
    parse whole (new_parser stat (codes ":")) (codes "anon: 18014398509481985 kB\n") empty_stat
    ≡ done (scalar_value (int_value (pos 1024)) ∷ scalar_value (uint_value 0) ∷ map_value none ∷ [])
unfolding parse new_parser lines cut field_kind lookup field_index equal insert parse_int parse_uint
    trim_string_with_multiplier trim_space set_int_field set_uint_field wrap64 ◌*ℤ◌
kilo_wraps = refl

-- The error leaves what the lines before it wrote.
parse-overflow :
    parse whole (new_parser stat (codes ":")) (codes "anon: 1\nUmask: 256\n") empty_stat
    ≡ failed overflow
        (scalar_value (int_value (pos 1)) ∷ scalar_value (uint_value 0) ∷ map_value none ∷ [])
unfolding parse new_parser lines cut field_kind lookup field_index equal insert parse_int parse_uint
    trim_string_with_multiplier trim_space set_int_field set_uint_field wrap64 ◌*ℤ◌
parse-overflow = refl

parse-WellTyped_example :
    WellTyped whole stat
      (left_by whole (parse whole (new_parser stat (codes ":")) content empty_stat))
parse-WellTyped_example =
    parse-WellTyped whole stat (codes ":") content empty_stat (refl, (refl, (tt, tt)))

parse-IsPanicFree_example :
    IsPanicFree whole (parse whole (new_parser stat (codes ":")) content empty_stat)
parse-IsPanicFree_example = parse-IsPanicFree whole stat (codes ":") content empty_stat
