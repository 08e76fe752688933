-- ===== src/Symbols/Built.antt =====
-- The table of a program against its scoping rules.
use calynda_for_wii.Symbols.Refines.{Follows}
