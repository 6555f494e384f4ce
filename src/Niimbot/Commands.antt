-- ===== src/Niimbot/Commands.antt =====
-- internal/niimbot/commands.go: the codes on the wire.
use brother_connect.Base.{ℕ}

-- Requests.
abbrev pub cmd_print_start : ℕ
cmd_print_start = 0x01

abbrev pub cmd_page_start : ℕ
cmd_page_start = 0x03

abbrev pub cmd_set_page_size : ℕ
cmd_set_page_size = 0x13

abbrev pub cmd_print_quantity : ℕ
cmd_print_quantity = 0x15

abbrev pub cmd_print_clear : ℕ
cmd_print_clear = 0x20

abbrev pub cmd_set_density : ℕ
cmd_set_density = 0x21

abbrev pub cmd_set_label_type : ℕ
cmd_set_label_type = 0x23

abbrev pub cmd_printer_info : ℕ
cmd_printer_info = 0x40

abbrev pub cmd_empty_row : ℕ
cmd_empty_row = 0x84

abbrev pub cmd_bitmap_row : ℕ
cmd_bitmap_row = 0x85

abbrev pub cmd_check_line : ℕ
cmd_check_line = 0x86

abbrev pub cmd_print_status : ℕ
cmd_print_status = 0xA3

abbrev pub cmd_cancel_print : ℕ
cmd_cancel_print = 0xDA

abbrev pub cmd_heartbeat : ℕ
cmd_heartbeat = 0xDC

abbrev pub cmd_page_end : ℕ
cmd_page_end = 0xE3

abbrev pub cmd_print_end : ℕ
cmd_print_end = 0xF3

-- Responses.
abbrev pub resp_not_supported : ℕ
resp_not_supported = 0x00

abbrev pub resp_print_start : ℕ
resp_print_start = 0x02

abbrev pub resp_page_start : ℕ
resp_page_start = 0x04

abbrev pub resp_set_page_size : ℕ
resp_set_page_size = 0x14

abbrev pub resp_print_quantity : ℕ
resp_print_quantity = 0x16

abbrev pub resp_print_clear : ℕ
resp_print_clear = 0x30

abbrev pub resp_set_density : ℕ
resp_set_density = 0x31

abbrev pub resp_set_label_type : ℕ
resp_set_label_type = 0x33

abbrev pub resp_print_status : ℕ
resp_print_status = 0xB3

abbrev pub resp_cancel_print : ℕ
resp_cancel_print = 0xD0

abbrev pub resp_heartbeat_adv2 : ℕ
resp_heartbeat_adv2 = 0xD9

abbrev pub resp_print_error : ℕ
resp_print_error = 0xDB

abbrev pub resp_heartbeat_adv1 : ℕ
resp_heartbeat_adv1 = 0xDD

abbrev pub resp_heartbeat_base : ℕ
resp_heartbeat_base = 0xDE

abbrev pub resp_heartbeat_info : ℕ
resp_heartbeat_info = 0xDF

abbrev pub resp_page_end : ℕ
resp_page_end = 0xE4

abbrev pub resp_print_end : ℕ
resp_print_end = 0xF4

-- `LabelGap`
abbrev pub label_gap : ℕ
label_gap = 1
