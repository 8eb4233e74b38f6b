-- ===== src/Print/Bounds.antt =====
-- src/snprintf.c: what is printed stays within the buffer.
use separation_kernel.Print.Ends.{Ends}
