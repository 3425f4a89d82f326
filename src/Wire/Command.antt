-- ===== src/Wire/Command.antt =====
-- The codes of src/uo/Command.hxx that the program sends or tests.
pub mod Table
use uologin.Prelude.{ℕ}

abbrev pub account_login : ℕ
account_login = 0x80

abbrev pub account_login_reject : ℕ
account_login_reject = 0x82

abbrev pub play_server : ℕ
play_server = 0xa0

abbrev pub server_list : ℕ
server_list = 0xa8

abbrev pub extended : ℕ
extended = 0xbf

abbrev pub seed : ℕ
seed = 0xef
