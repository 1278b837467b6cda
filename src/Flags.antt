-- ===== src/Flags.antt =====
-- The constant functions of include/com_android_art_native_flags.h, include/com_android_art_rw_flags.h
-- and include/android_content_res.h.
use mathlib.Core.Bool.{Bool, true, false}

abbrev pub com_android_art_native_flags_test_rw : Bool
com_android_art_native_flags_test_rw = false

abbrev pub com_android_art_rw_flags_test_rw_flag : Bool
com_android_art_rw_flags_test_rw_flag = false

abbrev pub com_android_art_rw_flags_read_only_dynamic_code_load_ww_log : Bool
com_android_art_rw_flags_read_only_dynamic_code_load_ww_log = false

abbrev pub com_android_art_rw_flags_read_only_dynamic_code_load_throw_exception : Bool
com_android_art_rw_flags_read_only_dynamic_code_load_throw_exception = false

abbrev pub android_content_res_resource_readwrite_flags : Bool
android_content_res_resource_readwrite_flags = true

abbrev pub android_content_res_xml_file_size_limit : Bool
android_content_res_xml_file_size_limit = true
