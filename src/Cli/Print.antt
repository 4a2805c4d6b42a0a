-- ===== src/Cli/Print.antt =====
-- `print_human` and the human-readable lines of the other commands.
use memhunt.Base.{ℕ, ◌+◌, Text, codes, List, [], ◌∷◌, ◌++◌, Option, none, some, take, to_decimal}
use memhunt.Base.{concat}
use memhunt.Report.{Confidence, low, medium, high, Mode, ecb, cbc, ctr, gcm, stream}
use memhunt.Report.{IvCandidate, Hit}
use memhunt.KeySched.Scan.{KeyScheduleHit}
use memhunt.HashScan.Scan.{HashHit}

-- `{:?}`.
abbrev pub confidence_debug : Confidence → Text
confidence_debug low = codes "Low"
confidence_debug medium = codes "Medium"
confidence_debug high = codes "High"

-- `{:?}` in lower case.
abbrev pub confidence_word : Confidence → Text
confidence_word low = codes "low"
confidence_word medium = codes "medium"
confidence_word high = codes "high"

abbrev pub mode_word : Mode → Text
mode_word ecb = codes "ecb"
mode_word cbc = codes "cbc"
mode_word ctr = codes "ctr"
mode_word gcm = codes "gcm"
mode_word stream = codes "stream"

-- The texts of a line, one behind the other.
abbrev line : List Text → Text
line = concat

abbrev pub iv_place : Option ℕ → Text
iv_place none = codes "fixed"
iv_place (some o) = codes "@" ++ to_decimal o

abbrev pub iv_lines : Option Text → Option ℕ → List Text
iv_lines none offset = []
iv_lines (some iv) offset = line (codes "       iv =" ∷ iv_place offset ∷ codes " " ∷ iv ∷ []) ∷ []

abbrev pub nonce_lines : Option Text → List Text
nonce_lines none = []
nonce_lines (some nonce) = (codes "       nonce =" ++ nonce) ∷ []

abbrev pub preview_block : Option Text → Text
preview_block none = codes "(non-utf8)"
preview_block (some s) = take 40 s

-- The candidates from index `i` on.
unfoldable pub candidate_lines : ℕ → List IvCandidate → List Text
candidate_lines i [] = []
candidate_lines i (c ∷ cs) =
    line (
      codes "       iv-candidate["
      ∷ to_decimal i
      ∷ codes "] @"
      ∷ to_decimal c.iv_offset
      ∷ codes " "
      ∷ confidence_debug c.confidence
      ∷ codes " matched_by="
      ∷ c.matched_by
      ∷ codes " block0="
      ∷ preview_block c.block0_utf8
      ∷ [])
    ∷ candidate_lines (i + 1) cs

abbrev pub padding_lines : Option Text → List Text
padding_lines none = []
padding_lines (some pad) = (codes "       padding: " ++ pad) ∷ []

abbrev pub plaintext_line : Option Text → Text → Text
plaintext_line (some s) hex = codes "       plaintext: " ++ take 120 s
plaintext_line none hex = codes "       plaintext(hex): " ++ take 96 hex

-- The lines of one hit, the empty one behind them included.
unfoldable pub print_human : Hit → List Text
unfolding candidate_lines
print_human hit =
    line (
      codes "["
      ∷ confidence_word hit.confidence
      ∷ codes "] "
      ∷ hit.algo
      ∷ codes " "
      ∷ mode_word hit.mode
      ∷ codes " key=@"
      ∷ to_decimal hit.key_offset
      ∷ codes " "
      ∷ hit.key_hex
      ∷ [])
    ∷ (iv_lines hit.iv_hex hit.iv_offset
        ++ (nonce_lines hit.nonce_hex
            ++ (candidate_lines 0 hit.iv_candidates
                ++ (padding_lines hit.padding
                    ++ (plaintext_line hit.plaintext_utf8 hit.plaintext_hex ∷ [] ∷ [])))))

unfoldable pub print_key_hit : KeyScheduleHit → List Text
print_key_hit hit =
    line (
      codes "[high] "
      ∷ hit.algo
      ∷ codes " key-schedule @"
      ∷ to_decimal hit.offset
      ∷ codes " key="
      ∷ hit.key_hex
      ∷ [])
    ∷ (codes "       words_validated: " ++ to_decimal hit.words_validated)
    ∷ []
    ∷ []

-- `preview` is what the code cuts from the bytes of the match.
unfoldable pub print_hash_hit : Text → HashHit → List Text
print_hash_hit preview hit =
    line (
      codes "[high] "
      ∷ hit.algo
      ∷ codes " "
      ∷ hit.kind
      ∷ codes " @"
      ∷ to_decimal hit.offset
      ∷ codes " len="
      ∷ to_decimal hit.length
      ∷ codes " "
      ∷ hit.match_hex
      ∷ [])
    ∷ (codes "       data: " ++ preview)
    ∷ []
    ∷ []
