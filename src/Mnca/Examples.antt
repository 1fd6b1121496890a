-- ===== src/Mnca/Examples.antt =====
-- A block of four live cells, which the rule of tools/x402-bridge/mnca-oracle.ts leaves as it is.
use semantos_edge.Base.{ℕ, ◌≡◌, ◌↔◌, refl, true, Option, some, List, ◌++◌, replicate}
use semantos_edge.Base.Map.{Str, str_eq}
use semantos_edge.Templog.Text.{codes, from_hex, hex_value, all_hex, is_hex}
use semantos_edge.Mnca.{
  step_tile, step_cells, next_cell, cell_at, alive_count, count_rows, count_columns, counts, offset,
  alive_at, is_alive, grown, decayed,
}
use semantos_edge.Mnca.Oracle.{
  ValidateRequest, validate_mnca_transition, signed, same_cells, rule_name, ascii,
}
use semantos_edge.Mnca.Validated.{
  IsStep, validate_mnca_transition-IsStep, validate_mnca_transition-oracle_sig,
}

abbrev block : Str
block = codes "ffff000000000000ffff000000000000" ++ replicate 96 48

abbrev request : ValidateRequest
request = record {
  prev_state = block;
  next_state = block;
  rule_id = codes "4D4E4341";
  x = 1;
  y = 2;
  gen = 3;
}

abbrev hash_hex : List ℕ → Str
hash_hex bytes = codes "00"

abbrev text : ℕ → Str
text n = codes "7"

abbrev sign : Str → Option Str
sign digest = some (codes "5151")

validate_mnca_transition-IsStep_example :
    ((validate_mnca_transition hash_hex text sign request).valid ≡ true) ↔ IsStep request
validate_mnca_transition-IsStep_example = validate_mnca_transition-IsStep hash_hex text sign request

is_signed : (validate_mnca_transition hash_hex text sign request).oracle_sig ≡ some (codes "5151")
unfolding validate_mnca_transition rule_name all_hex is_hex from_hex hex_value ascii str_eq
    step_tile step_cells next_cell cell_at alive_count count_rows count_columns counts offset
    alive_at is_alive grown decayed same_cells signed
is_signed = refl

validate_mnca_transition-oracle_sig_example :
    IsStep request
    × (sign (
          hash_hex (
            codes "MNCA_ORACLE|"
            ++ (text 1
                ++ (codes "|"
                    ++ (text 2
                        ++ (codes "|" ++ (text 3 ++ (codes "|" ++ hash_hex (from_hex block)))))))))
        ≡ some (codes "5151"))
validate_mnca_transition-oracle_sig_example =
    validate_mnca_transition-oracle_sig hash_hex text sign request (codes "5151") is_signed
