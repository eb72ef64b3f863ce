-- ===== src/Asprintf/Tests.antt =====
-- src/stdio.c: printing "n=7" to new memory.
use libsolcompat.Common.{◌≡◌, ◌<◌, refl, false, some, length, arith}
use libsolcompat.Snprintf.{Scan, scan_format}
use libsolcompat.Snprintf.Print.{fmt_buf_size, passes_buffer}
use libsolcompat.Snprintf.Tests.{source, text, print_seven, malloc, seven}
use libsolcompat.Asprintf.{vasprintf}
use libsolcompat.Asprintf.Whole.{allocated, vasprintf-whole}

vasprintf-whole_example :
    (x : Scan) × (scan_format fmt_buf_size source ≡ some x)
    × (length source < 1024 → passes_buffer x ≡ false)
    × (vasprintf malloc print_seven 1 source ≡ some (allocated text x))
vasprintf-whole_example =
    vasprintf-whole malloc print_seven 1 source text (λ n. refl) seven (omega arith)
