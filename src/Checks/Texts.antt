-- ===== src/Checks/Texts.antt =====
-- Inputs of the theorems on tflib/tf_util.c and tflib/expert/base64.c.
use tflib.Common.{◌≡◌, arith, some, [], ◌∷◌, ◌++◌}
use tflib.Common.{Returns}
use tflib.Base64.{encode_base64}
use tflib.Base64.RoundTrip.{RoundTrips, decode_base64-encode_base64}
use tflib.Text.Split.{strsplit, strjoin}
use tflib.Text.Split.Joined.{strjoin-strsplit}
use tflib.Codec.{bin_to_asc, asc_to_bin}
use tflib.Codec.RoundTrip.{asc_to_bin-bin_to_asc}

decode_base64-encode_base64_example :
    Returns (encode_base64 (255 ∷ 0 ∷ 17 ∷ 42 ∷ [])) (RoundTrips (255 ∷ 0 ∷ 17 ∷ 42 ∷ []))
decode_base64-encode_base64_example =
    decode_base64-encode_base64 255 0 17 42 []
      (omega arith, (omega arith, (omega arith, (omega arith, tt)))) (omega arith)

strjoin-strsplit_example :
    Returns
      (strsplit (97 ∷ 44 ∷ 98 ∷ []) (44 ∷ []))
      (λ l. strjoin l 44 ≡ some ((97 ∷ 44 ∷ 98 ∷ []) ++ 0 ∷ []))
strjoin-strsplit_example = strjoin-strsplit (97 ∷ 44 ∷ 98 ∷ []) 44 (omega arith)

asc_to_bin-bin_to_asc_example : asc_to_bin (bin_to_asc (200 ∷ 7 ∷ [])) 0 ≡ 200 ∷ 7 ∷ []
asc_to_bin-bin_to_asc_example =
    asc_to_bin-bin_to_asc (200 ∷ 7 ∷ []) 0 (omega arith, (omega arith, tt))
