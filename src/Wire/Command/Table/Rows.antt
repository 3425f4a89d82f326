-- ===== src/Wire/Command/Table/Rows.antt =====
-- The command of each code of src/uo/Command.hxx, as the first of the enumeration that has it.
use uologin.Prelude.{
  ℕ, true, false, ◌≡◌, refl, Option, none, some, inl, inr, ◌⊎◌, ◌==◌, ltb, List, [], ◌∷◌,
}
use uologin.Wire.Command.Table.{
  Command, code, create_character, disconnect, walk, talk_ascii, god_mode, attack, use_,
  lift_request, drop, click, edit_item, edit_area, edit_tile_data, edit_npc, edit_template,
  edit_paperdoll, edit_hues, mobile_status, action, item_equip_req, god_levitate, follow,
  scripts_get, scripts_exe, scripts_add, unk_speak_npc, world_item, start, speak_ascii, delete,
  unk_animate, unk_explode, mobile_update, walk_cancel, walk_ack, resynchronize, drag_anim,
  container_open, container_update, kick, lift_reject, clear_square, object_dropped, unk_blood,
  god_mode_ok, death_menu, unk_health, equip, fight, unk_attack_ok, unk_peace, unk_hack_move, pause,
  char_stat_req, edit_res_type, edit_res_tiledata, unk_move_object, path_find, change_group, skill,
  vendor_buy, container_content, unk_ship, unk_versions, edit_update_obj, edit_update_terrain,
  edit_update_tiledata, edit_update_art, edit_update_anim, edit_update_hues, unk_version_ok,
  edit_new_art, edit_new_terrain, edit_new_anim, edit_new_hues, unk_destroy_art, unk_check_version,
  scripts_names, scripts_file, personal_light_level, global_light_level, unk_bb_header,
  unk_bb_message, unk_post_msg, popup_message, sound, redraw_all, map_edit, unk_regions_update,
  unk_regions_new, unk_effect_new, effect_update, time, unk_version_restart, play_character,
  unk_server_list, unk_server_add, unk_server_del, unk_static_del, unk_static_move, unk_load_area,
  unk_load_area_try, weather, book_page, unk_simped, unk_add_ls_script, options, unk_friend_notify,
  unk_use_key, target, play_music, char_action, secure_trade, effect, bboard, war_mode, ping,
  vend_open_buy, char_name, zone_change, mobile_moving, mobile_incoming, unk_resource_get,
  unk_resource_data, unk_sequence, menu_items, menu_choice, god_get_view, god_view_info,
  account_login, char_list3, account_login_reject, char_delete, unk_password_change, delete_bad,
  char_list2, unk_resource_send, paper_doll, corp_equip, edit_trigger, gump_text_disp, relay,
  unused8d, unk_char_move, unused8f, map_display, game_login, edit_multi_mul, book_open,
  edit_skills_mul, dye_vat, god_game_mon, walk_force, unk_change_name, target_multi, prompt,
  help_page, god_assist, god_single, vend_open_sell, vendor_sell, play_server, stat_chng_str,
  stat_chng_int, stat_chng_dex, spy, web, scroll, tip_req, server_list, char_list, attack_ok,
  gump_inp_val, gump_inp_val_ret, talk_unicode, speak_unicode, char_death, gump_dialog,
  gump_response, chat_req, chat_text, target_items, chat, tool_tip_req, tool_tip, char_profile,
  supported_features, arrow, mail_msg, season, client_version, unk_version_assist, extended,
  unk_hued_effect, speak_table, unk_speak_table_u, unk_gq_effect, unk_semi_visible, unk_invalid_map,
  unk_enable_invalid_map, particle_effect, unk_update_range, unk_trip_time, unk_u_trip_time,
  unk_gq_count, unk_text_id_and_str, account_login2, aos_tooltip, hardware, aos_obj_prop,
  display_gump_packed, seed, protocol_extension, world_item7, create_character7,
}

abbrev pub commands : List Command
commands =
    create_character ∷ disconnect ∷ walk ∷ talk_ascii ∷ god_mode ∷ attack ∷ use_ ∷ lift_request
    ∷ drop ∷ click ∷ edit_item ∷ edit_area ∷ edit_tile_data ∷ edit_npc ∷ edit_template
    ∷ edit_paperdoll ∷ edit_hues ∷ mobile_status ∷ action ∷ item_equip_req ∷ god_levitate ∷ follow
    ∷ scripts_get ∷ scripts_exe ∷ scripts_add ∷ unk_speak_npc ∷ world_item ∷ start ∷ speak_ascii
    ∷ delete ∷ unk_animate ∷ unk_explode ∷ mobile_update ∷ walk_cancel ∷ walk_ack ∷ resynchronize
    ∷ drag_anim ∷ container_open ∷ container_update ∷ kick ∷ lift_reject ∷ clear_square
    ∷ object_dropped ∷ unk_blood ∷ god_mode_ok ∷ death_menu ∷ unk_health ∷ equip ∷ fight
    ∷ unk_attack_ok ∷ unk_peace ∷ unk_hack_move ∷ pause ∷ char_stat_req ∷ edit_res_type
    ∷ edit_res_tiledata ∷ unk_move_object ∷ path_find ∷ change_group ∷ skill ∷ vendor_buy
    ∷ container_content ∷ unk_ship ∷ unk_versions ∷ edit_update_obj ∷ edit_update_terrain
    ∷ edit_update_tiledata ∷ edit_update_art ∷ edit_update_anim ∷ edit_update_hues ∷ unk_version_ok
    ∷ edit_new_art ∷ edit_new_terrain ∷ edit_new_anim ∷ edit_new_hues ∷ unk_destroy_art
    ∷ unk_check_version ∷ scripts_names ∷ scripts_file ∷ personal_light_level ∷ global_light_level
    ∷ unk_bb_header ∷ unk_bb_message ∷ unk_post_msg ∷ popup_message ∷ sound ∷ redraw_all ∷ map_edit
    ∷ unk_regions_update ∷ unk_regions_new ∷ unk_effect_new ∷ effect_update ∷ time
    ∷ unk_version_restart ∷ play_character ∷ unk_server_list ∷ unk_server_add ∷ unk_server_del
    ∷ unk_static_del ∷ unk_static_move ∷ unk_load_area ∷ unk_load_area_try ∷ weather ∷ book_page
    ∷ unk_simped ∷ unk_add_ls_script ∷ options ∷ unk_friend_notify ∷ unk_use_key ∷ target
    ∷ play_music ∷ char_action ∷ secure_trade ∷ effect ∷ bboard ∷ war_mode ∷ ping ∷ vend_open_buy
    ∷ char_name ∷ zone_change ∷ mobile_moving ∷ mobile_incoming ∷ unk_resource_get
    ∷ unk_resource_data ∷ unk_sequence ∷ menu_items ∷ menu_choice ∷ god_get_view ∷ god_view_info
    ∷ account_login ∷ char_list3 ∷ account_login_reject ∷ char_delete ∷ unk_password_change
    ∷ delete_bad ∷ char_list2 ∷ unk_resource_send ∷ paper_doll ∷ corp_equip ∷ edit_trigger
    ∷ gump_text_disp ∷ relay ∷ unused8d ∷ unk_char_move ∷ unused8f ∷ map_display ∷ game_login
    ∷ edit_multi_mul ∷ book_open ∷ edit_skills_mul ∷ dye_vat ∷ god_game_mon ∷ walk_force
    ∷ unk_change_name ∷ target_multi ∷ prompt ∷ help_page ∷ god_assist ∷ god_single ∷ vend_open_sell
    ∷ vendor_sell ∷ play_server ∷ stat_chng_str ∷ stat_chng_int ∷ stat_chng_dex ∷ spy ∷ web ∷ scroll
    ∷ tip_req ∷ server_list ∷ char_list ∷ attack_ok ∷ gump_inp_val ∷ gump_inp_val_ret ∷ talk_unicode
    ∷ speak_unicode ∷ char_death ∷ gump_dialog ∷ gump_response ∷ chat_req ∷ chat_text ∷ target_items
    ∷ chat ∷ tool_tip_req ∷ tool_tip ∷ char_profile ∷ supported_features ∷ arrow ∷ mail_msg ∷ season
    ∷ client_version ∷ unk_version_assist ∷ extended ∷ unk_hued_effect ∷ speak_table
    ∷ unk_speak_table_u ∷ unk_gq_effect ∷ unk_semi_visible ∷ unk_invalid_map
    ∷ unk_enable_invalid_map ∷ particle_effect ∷ unk_update_range ∷ unk_trip_time ∷ unk_u_trip_time
    ∷ unk_gq_count ∷ unk_text_id_and_str ∷ account_login2 ∷ aos_tooltip ∷ hardware ∷ aos_obj_prop
    ∷ display_gump_packed ∷ seed ∷ protocol_extension ∷ world_item7 ∷ create_character7 ∷ []

-- The first command with a byte.
unfoldable pub find : ℕ → List Command → Option Command
find n [] = none
find n (c ∷ cs) = elim (code c == n) [ true ↦ some c | false ↦ find n cs ]

pub row :
    (c : Command)
    → (ltb (code c) 256 ≡ true) × ((find (code c) commands ≡ some c) ⊎ (c ≡ resynchronize))
unfolding code find
row create_character = (refl, inl refl)
row disconnect = (refl, inl refl)
row walk = (refl, inl refl)
row talk_ascii = (refl, inl refl)
row god_mode = (refl, inl refl)
row attack = (refl, inl refl)
row use_ = (refl, inl refl)
row lift_request = (refl, inl refl)
row drop = (refl, inl refl)
row click = (refl, inl refl)
row edit_item = (refl, inl refl)
row edit_area = (refl, inl refl)
row edit_tile_data = (refl, inl refl)
row edit_npc = (refl, inl refl)
row edit_template = (refl, inl refl)
row edit_paperdoll = (refl, inl refl)
row edit_hues = (refl, inl refl)
row mobile_status = (refl, inl refl)
row action = (refl, inl refl)
row item_equip_req = (refl, inl refl)
row god_levitate = (refl, inl refl)
row follow = (refl, inl refl)
row scripts_get = (refl, inl refl)
row scripts_exe = (refl, inl refl)
row scripts_add = (refl, inl refl)
row unk_speak_npc = (refl, inl refl)
row world_item = (refl, inl refl)
row start = (refl, inl refl)
row speak_ascii = (refl, inl refl)
row delete = (refl, inl refl)
row unk_animate = (refl, inl refl)
row unk_explode = (refl, inl refl)
row mobile_update = (refl, inl refl)
row walk_cancel = (refl, inl refl)
row walk_ack = (refl, inl refl)
row resynchronize = (refl, inr refl)
row drag_anim = (refl, inl refl)
row container_open = (refl, inl refl)
row container_update = (refl, inl refl)
row kick = (refl, inl refl)
row lift_reject = (refl, inl refl)
row clear_square = (refl, inl refl)
row object_dropped = (refl, inl refl)
row unk_blood = (refl, inl refl)
row god_mode_ok = (refl, inl refl)
row death_menu = (refl, inl refl)
row unk_health = (refl, inl refl)
row equip = (refl, inl refl)
row fight = (refl, inl refl)
row unk_attack_ok = (refl, inl refl)
row unk_peace = (refl, inl refl)
row unk_hack_move = (refl, inl refl)
row pause = (refl, inl refl)
row char_stat_req = (refl, inl refl)
row edit_res_type = (refl, inl refl)
row edit_res_tiledata = (refl, inl refl)
row unk_move_object = (refl, inl refl)
row path_find = (refl, inl refl)
row change_group = (refl, inl refl)
row skill = (refl, inl refl)
row vendor_buy = (refl, inl refl)
row container_content = (refl, inl refl)
row unk_ship = (refl, inl refl)
row unk_versions = (refl, inl refl)
row edit_update_obj = (refl, inl refl)
row edit_update_terrain = (refl, inl refl)
row edit_update_tiledata = (refl, inl refl)
row edit_update_art = (refl, inl refl)
row edit_update_anim = (refl, inl refl)
row edit_update_hues = (refl, inl refl)
row unk_version_ok = (refl, inl refl)
row edit_new_art = (refl, inl refl)
row edit_new_terrain = (refl, inl refl)
row edit_new_anim = (refl, inl refl)
row edit_new_hues = (refl, inl refl)
row unk_destroy_art = (refl, inl refl)
row unk_check_version = (refl, inl refl)
row scripts_names = (refl, inl refl)
row scripts_file = (refl, inl refl)
row personal_light_level = (refl, inl refl)
row global_light_level = (refl, inl refl)
row unk_bb_header = (refl, inl refl)
row unk_bb_message = (refl, inl refl)
row unk_post_msg = (refl, inl refl)
row popup_message = (refl, inl refl)
row sound = (refl, inl refl)
row redraw_all = (refl, inl refl)
row map_edit = (refl, inl refl)
row unk_regions_update = (refl, inl refl)
row unk_regions_new = (refl, inl refl)
row unk_effect_new = (refl, inl refl)
row effect_update = (refl, inl refl)
row time = (refl, inl refl)
row unk_version_restart = (refl, inl refl)
row play_character = (refl, inl refl)
row unk_server_list = (refl, inl refl)
row unk_server_add = (refl, inl refl)
row unk_server_del = (refl, inl refl)
row unk_static_del = (refl, inl refl)
row unk_static_move = (refl, inl refl)
row unk_load_area = (refl, inl refl)
row unk_load_area_try = (refl, inl refl)
row weather = (refl, inl refl)
row book_page = (refl, inl refl)
row unk_simped = (refl, inl refl)
row unk_add_ls_script = (refl, inl refl)
row options = (refl, inl refl)
row unk_friend_notify = (refl, inl refl)
row unk_use_key = (refl, inl refl)
row target = (refl, inl refl)
row play_music = (refl, inl refl)
row char_action = (refl, inl refl)
row secure_trade = (refl, inl refl)
row effect = (refl, inl refl)
row bboard = (refl, inl refl)
row war_mode = (refl, inl refl)
row ping = (refl, inl refl)
row vend_open_buy = (refl, inl refl)
row char_name = (refl, inl refl)
row zone_change = (refl, inl refl)
row mobile_moving = (refl, inl refl)
row mobile_incoming = (refl, inl refl)
row unk_resource_get = (refl, inl refl)
row unk_resource_data = (refl, inl refl)
row unk_sequence = (refl, inl refl)
row menu_items = (refl, inl refl)
row menu_choice = (refl, inl refl)
row god_get_view = (refl, inl refl)
row god_view_info = (refl, inl refl)
row account_login = (refl, inl refl)
row char_list3 = (refl, inl refl)
row account_login_reject = (refl, inl refl)
row char_delete = (refl, inl refl)
row unk_password_change = (refl, inl refl)
row delete_bad = (refl, inl refl)
row char_list2 = (refl, inl refl)
row unk_resource_send = (refl, inl refl)
row paper_doll = (refl, inl refl)
row corp_equip = (refl, inl refl)
row edit_trigger = (refl, inl refl)
row gump_text_disp = (refl, inl refl)
row relay = (refl, inl refl)
row unused8d = (refl, inl refl)
row unk_char_move = (refl, inl refl)
row unused8f = (refl, inl refl)
row map_display = (refl, inl refl)
row game_login = (refl, inl refl)
row edit_multi_mul = (refl, inl refl)
row book_open = (refl, inl refl)
row edit_skills_mul = (refl, inl refl)
row dye_vat = (refl, inl refl)
row god_game_mon = (refl, inl refl)
row walk_force = (refl, inl refl)
row unk_change_name = (refl, inl refl)
row target_multi = (refl, inl refl)
row prompt = (refl, inl refl)
row help_page = (refl, inl refl)
row god_assist = (refl, inl refl)
row god_single = (refl, inl refl)
row vend_open_sell = (refl, inl refl)
row vendor_sell = (refl, inl refl)
row play_server = (refl, inl refl)
row stat_chng_str = (refl, inl refl)
row stat_chng_int = (refl, inl refl)
row stat_chng_dex = (refl, inl refl)
row spy = (refl, inl refl)
row web = (refl, inl refl)
row scroll = (refl, inl refl)
row tip_req = (refl, inl refl)
row server_list = (refl, inl refl)
row char_list = (refl, inl refl)
row attack_ok = (refl, inl refl)
row gump_inp_val = (refl, inl refl)
row gump_inp_val_ret = (refl, inl refl)
row talk_unicode = (refl, inl refl)
row speak_unicode = (refl, inl refl)
row char_death = (refl, inl refl)
row gump_dialog = (refl, inl refl)
row gump_response = (refl, inl refl)
row chat_req = (refl, inl refl)
row chat_text = (refl, inl refl)
row target_items = (refl, inl refl)
row chat = (refl, inl refl)
row tool_tip_req = (refl, inl refl)
row tool_tip = (refl, inl refl)
row char_profile = (refl, inl refl)
row supported_features = (refl, inl refl)
row arrow = (refl, inl refl)
row mail_msg = (refl, inl refl)
row season = (refl, inl refl)
row client_version = (refl, inl refl)
row unk_version_assist = (refl, inl refl)
row extended = (refl, inl refl)
row unk_hued_effect = (refl, inl refl)
row speak_table = (refl, inl refl)
row unk_speak_table_u = (refl, inl refl)
row unk_gq_effect = (refl, inl refl)
row unk_semi_visible = (refl, inl refl)
row unk_invalid_map = (refl, inl refl)
row unk_enable_invalid_map = (refl, inl refl)
row particle_effect = (refl, inl refl)
row unk_update_range = (refl, inl refl)
row unk_trip_time = (refl, inl refl)
row unk_u_trip_time = (refl, inl refl)
row unk_gq_count = (refl, inl refl)
row unk_text_id_and_str = (refl, inl refl)
row account_login2 = (refl, inl refl)
row aos_tooltip = (refl, inl refl)
row hardware = (refl, inl refl)
row aos_obj_prop = (refl, inl refl)
row display_gump_packed = (refl, inl refl)
row seed = (refl, inl refl)
row protocol_extension = (refl, inl refl)
row world_item7 = (refl, inl refl)
row create_character7 = (refl, inl refl)
