-- ===== src/Codec/Tests.antt =====
-- The writers at slices that are large enough.
use telnetty.Base.{[], ◌∷◌, Bytes, replicate}
use telnetty.Cmd
use telnetty.Codec.Escape.{frame}
use telnetty.Codec.Laws.{Writes, writers-Writes}
use telnetty.Codec.{escape_iac, build_command, build_subnegotiation}

abbrev five_zeros : Bytes
five_zeros = 0 ∷ 0 ∷ 0 ∷ 0 ∷ 0 ∷ []

abbrev ten_zeros : Bytes
ten_zeros = replicate 10 0

writers-Writes_example :
    Writes five_zeros (7 ∷ 255 ∷ 255 ∷ []) (escape_iac five_zeros (7 ∷ 255 ∷ []))
    × Writes five_zeros (255 ∷ 251 ∷ 24 ∷ []) (build_command five_zeros Cmd.will 24)
    × Writes five_zeros
        (frame 24 (7 ∷ 255 ∷ []))
        (build_subnegotiation five_zeros 24 (7 ∷ 255 ∷ []))
writers-Writes_example = writers-Writes five_zeros (7 ∷ 255 ∷ []) Cmd.will 24
