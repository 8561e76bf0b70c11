-- ===== src/Go/Pem.antt =====
-- `pem.Encode` of encoding/pem, of a block with no headers.
use mx_chain_simulator_go.Common.{ℕ, ◌+◌, [], ◌∷◌, ◌++◌, Bytes, codes, ◌==◌, if◌then◌else◌}
use mx_chain_simulator_go.Go.Base64

abbrev pub newline : ℕ
newline = 10

-- Lines of 64 letters, each with its end; `used` letters stand in the line so far.
unfoldable pub break_lines : ℕ → Bytes → Bytes
break_lines used [] = if used == 0 then [] else newline ∷ []
break_lines used (c ∷ s) =
    let full = used + 1 == 64 in
    let rest = break_lines (if full then 0 else used + 1) s in
    c ∷ (if full then newline ∷ rest else rest)

unfoldable pub encode : Bytes → Bytes → Bytes
unfolding break_lines Base64.encode
encode block_type content =
    codes "-----BEGIN "
    ++ (block_type
        ++ (codes "-----"
            ++ newline
              ∷ (break_lines 0 (Base64.encode content)
                  ++ (codes "-----END " ++ (block_type ++ (codes "-----" ++ newline ∷ []))))))
