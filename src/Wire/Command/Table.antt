-- ===== src/Wire/Command/Table.antt =====
-- The whole enumeration of src/uo/Command.hxx.
pub mod Rows
pub mod Unique
use uologin.Prelude.{ℕ}

pub data Command : Type 0 where
  create_character disconnect walk talk_ascii god_mode attack use_ lift_request drop click : Command
  edit_item edit_area edit_tile_data edit_npc edit_template edit_paperdoll edit_hues : Command
  mobile_status action item_equip_req god_levitate follow scripts_get scripts_exe scripts_add :
      Command
  unk_speak_npc world_item start speak_ascii delete unk_animate unk_explode mobile_update : Command
  walk_cancel walk_ack resynchronize drag_anim container_open container_update kick lift_reject :
      Command
  clear_square object_dropped unk_blood god_mode_ok death_menu unk_health equip fight : Command
  unk_attack_ok unk_peace unk_hack_move pause char_stat_req edit_res_type edit_res_tiledata :
      Command
  unk_move_object path_find change_group skill vendor_buy container_content unk_ship unk_versions :
      Command
  edit_update_obj edit_update_terrain edit_update_tiledata edit_update_art edit_update_anim :
      Command
  edit_update_hues unk_version_ok edit_new_art edit_new_terrain edit_new_anim edit_new_hues :
      Command
  unk_destroy_art unk_check_version scripts_names scripts_file personal_light_level : Command
  global_light_level unk_bb_header unk_bb_message unk_post_msg popup_message sound redraw_all :
      Command
  map_edit unk_regions_update unk_regions_new unk_effect_new effect_update time : Command
  unk_version_restart play_character unk_server_list unk_server_add unk_server_del unk_static_del :
      Command
  unk_static_move unk_load_area unk_load_area_try weather book_page unk_simped unk_add_ls_script :
      Command
  options unk_friend_notify unk_use_key target play_music char_action secure_trade effect bboard :
      Command
  war_mode ping vend_open_buy char_name zone_change mobile_moving mobile_incoming : Command
  unk_resource_get unk_resource_data unk_sequence menu_items menu_choice god_get_view : Command
  god_view_info account_login char_list3 account_login_reject char_delete unk_password_change :
      Command
  delete_bad char_list2 unk_resource_send paper_doll corp_equip edit_trigger gump_text_disp relay :
      Command
  unused8d unk_char_move unused8f map_display game_login edit_multi_mul book_open edit_skills_mul :
      Command
  dye_vat god_game_mon walk_force unk_change_name target_multi prompt help_page god_assist : Command
  god_single vend_open_sell vendor_sell play_server stat_chng_str stat_chng_int stat_chng_dex spy :
      Command
  web scroll tip_req server_list char_list attack_ok gump_inp_val gump_inp_val_ret talk_unicode :
      Command
  speak_unicode char_death gump_dialog gump_response chat_req chat_text target_items chat : Command
  tool_tip_req tool_tip char_profile supported_features arrow mail_msg season client_version :
      Command
  unk_version_assist extended unk_hued_effect speak_table unk_speak_table_u unk_gq_effect : Command
  unk_semi_visible unk_invalid_map unk_enable_invalid_map particle_effect unk_update_range : Command
  unk_trip_time unk_u_trip_time unk_gq_count unk_text_id_and_str account_login2 aos_tooltip :
      Command
  hardware aos_obj_prop display_gump_packed seed protocol_extension world_item7 create_character7 :
      Command

-- The byte of a command.
unfoldable pub code : Command → ℕ
code create_character = 0x00
code disconnect = 0x01
code walk = 0x02
code talk_ascii = 0x03
code god_mode = 0x04
code attack = 0x05
code use_ = 0x06
code lift_request = 0x07
code drop = 0x08
code click = 0x09
code edit_item = 0x0a
code edit_area = 0x0b
code edit_tile_data = 0x0c
code edit_npc = 0x0d
code edit_template = 0x0e
code edit_paperdoll = 0x0f
code edit_hues = 0x10
code mobile_status = 0x11
code action = 0x12
code item_equip_req = 0x13
code god_levitate = 0x14
code follow = 0x15
code scripts_get = 0x16
code scripts_exe = 0x17
code scripts_add = 0x18
code unk_speak_npc = 0x19
code world_item = 0x1a
code start = 0x1b
code speak_ascii = 0x1c
code delete = 0x1d
code unk_animate = 0x1e
code unk_explode = 0x1f
code mobile_update = 0x20
code walk_cancel = 0x21
code walk_ack = 0x22
code resynchronize = 0x22
code drag_anim = 0x23
code container_open = 0x24
code container_update = 0x25
code kick = 0x26
code lift_reject = 0x27
code clear_square = 0x28
code object_dropped = 0x29
code unk_blood = 0x2a
code god_mode_ok = 0x2b
code death_menu = 0x2c
code unk_health = 0x2d
code equip = 0x2e
code fight = 0x2f
code unk_attack_ok = 0x30
code unk_peace = 0x31
code unk_hack_move = 0x32
code pause = 0x33
code char_stat_req = 0x34
code edit_res_type = 0x35
code edit_res_tiledata = 0x36
code unk_move_object = 0x37
code path_find = 0x38
code change_group = 0x39
code skill = 0x3a
code vendor_buy = 0x3b
code container_content = 0x3c
code unk_ship = 0x3d
code unk_versions = 0x3e
code edit_update_obj = 0x3f
code edit_update_terrain = 0x40
code edit_update_tiledata = 0x41
code edit_update_art = 0x42
code edit_update_anim = 0x43
code edit_update_hues = 0x44
code unk_version_ok = 0x45
code edit_new_art = 0x46
code edit_new_terrain = 0x47
code edit_new_anim = 0x48
code edit_new_hues = 0x49
code unk_destroy_art = 0x4a
code unk_check_version = 0x4b
code scripts_names = 0x4c
code scripts_file = 0x4d
code personal_light_level = 0x4e
code global_light_level = 0x4f
code unk_bb_header = 0x50
code unk_bb_message = 0x51
code unk_post_msg = 0x52
code popup_message = 0x53
code sound = 0x54
code redraw_all = 0x55
code map_edit = 0x56
code unk_regions_update = 0x57
code unk_regions_new = 0x58
code unk_effect_new = 0x59
code effect_update = 0x5a
code time = 0x5b
code unk_version_restart = 0x5c
code play_character = 0x5d
code unk_server_list = 0x5e
code unk_server_add = 0x5f
code unk_server_del = 0x60
code unk_static_del = 0x61
code unk_static_move = 0x62
code unk_load_area = 0x63
code unk_load_area_try = 0x64
code weather = 0x65
code book_page = 0x66
code unk_simped = 0x67
code unk_add_ls_script = 0x68
code options = 0x69
code unk_friend_notify = 0x6a
code unk_use_key = 0x6b
code target = 0x6c
code play_music = 0x6d
code char_action = 0x6e
code secure_trade = 0x6f
code effect = 0x70
code bboard = 0x71
code war_mode = 0x72
code ping = 0x73
code vend_open_buy = 0x74
code char_name = 0x75
code zone_change = 0x76
code mobile_moving = 0x77
code mobile_incoming = 0x78
code unk_resource_get = 0x79
code unk_resource_data = 0x7a
code unk_sequence = 0x7b
code menu_items = 0x7c
code menu_choice = 0x7d
code god_get_view = 0x7e
code god_view_info = 0x7f
code account_login = 0x80
code char_list3 = 0x81
code account_login_reject = 0x82
code char_delete = 0x83
code unk_password_change = 0x84
code delete_bad = 0x85
code char_list2 = 0x86
code unk_resource_send = 0x87
code paper_doll = 0x88
code corp_equip = 0x89
code edit_trigger = 0x8a
code gump_text_disp = 0x8b
code relay = 0x8c
code unused8d = 0x8d
code unk_char_move = 0x8e
code unused8f = 0x8f
code map_display = 0x90
code game_login = 0x91
code edit_multi_mul = 0x92
code book_open = 0x93
code edit_skills_mul = 0x94
code dye_vat = 0x95
code god_game_mon = 0x96
code walk_force = 0x97
code unk_change_name = 0x98
code target_multi = 0x99
code prompt = 0x9a
code help_page = 0x9b
code god_assist = 0x9c
code god_single = 0x9d
code vend_open_sell = 0x9e
code vendor_sell = 0x9f
code play_server = 0xa0
code stat_chng_str = 0xa1
code stat_chng_int = 0xa2
code stat_chng_dex = 0xa3
code spy = 0xa4
code web = 0xa5
code scroll = 0xa6
code tip_req = 0xa7
code server_list = 0xa8
code char_list = 0xa9
code attack_ok = 0xaa
code gump_inp_val = 0xab
code gump_inp_val_ret = 0xac
code talk_unicode = 0xad
code speak_unicode = 0xae
code char_death = 0xaf
code gump_dialog = 0xb0
code gump_response = 0xb1
code chat_req = 0xb2
code chat_text = 0xb3
code target_items = 0xb4
code chat = 0xb5
code tool_tip_req = 0xb6
code tool_tip = 0xb7
code char_profile = 0xb8
code supported_features = 0xb9
code arrow = 0xba
code mail_msg = 0xbb
code season = 0xbc
code client_version = 0xbd
code unk_version_assist = 0xbe
code extended = 0xbf
code unk_hued_effect = 0xc0
code speak_table = 0xc1
code unk_speak_table_u = 0xc2
code unk_gq_effect = 0xc3
code unk_semi_visible = 0xc4
code unk_invalid_map = 0xc5
code unk_enable_invalid_map = 0xc6
code particle_effect = 0xc7
code unk_update_range = 0xc8
code unk_trip_time = 0xc9
code unk_u_trip_time = 0xca
code unk_gq_count = 0xcb
code unk_text_id_and_str = 0xcc
code account_login2 = 0xcf
code aos_tooltip = 0xd6
code hardware = 0xd9
code aos_obj_prop = 0xdc
code display_gump_packed = 0xdd
code seed = 0xef
code protocol_extension = 0xf0
code world_item7 = 0xf3
code create_character7 = 0xf8
