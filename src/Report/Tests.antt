-- ===== src/Report/Tests.antt =====
-- src/effective_config_report.c: a name that fits.
use frame_pacer.Common.{◌≡◌, ◌≤◌, refl, All, arith, length, codes}
use frame_pacer.Report.{encode_text}
use frame_pacer.Report.Encoded.{IsPrintable, IsPart, encode_text-IsPart}

encode_text_quote : encode_text (codes "a\"b\n") ≡ codes "a\\\"b\\x0A"
unfolding encode_text frame_pacer.Report.encode_loop frame_pacer.Report.escaped_byte
    frame_pacer.Report.hex_digit
encode_text_quote = refl

encode_text-IsPart_example :
    (length (encode_text (codes "game")) ≤ 72)
    × All IsPrintable (encode_text (codes "game"))
    × IsPart (codes "game") (encode_text (codes "game"))
encode_text-IsPart_example =
    encode_text-IsPart (codes "game") (omega arith, (omega arith, (omega arith, (omega arith, tt))))
