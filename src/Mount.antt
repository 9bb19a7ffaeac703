-- ===== src/Mount.antt =====
-- Mount options and the paths in them (super.c: ovl_next_opt, ovl_parse_redirect_mode, ovl_parse_opt,
-- ovl_unescape, ovl_split_lowerdirs). A string is its bytes, without the NUL at the end.
pub mod Config
pub mod Paths
pub mod Saving
pub mod Inuse
