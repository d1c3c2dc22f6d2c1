-- ===== src/Protocol/Opt.antt =====
-- The enumeration of DHCP options in n-dhcp4-private.h.
use n_dhcp.Base.{ℕ}

abbrev pub pad : ℕ
pad = 0

abbrev pub requested_ip_address : ℕ
requested_ip_address = 50

abbrev pub ip_address_lease_time : ℕ
ip_address_lease_time = 51

abbrev pub overload : ℕ
overload = 52

abbrev pub message_type : ℕ
message_type = 53

abbrev pub server_identifier : ℕ
server_identifier = 54

abbrev pub parameter_request_list : ℕ
parameter_request_list = 55

abbrev pub error_message : ℕ
error_message = 56

abbrev pub maximum_message_size : ℕ
maximum_message_size = 57

abbrev pub renewal_t1_time : ℕ
renewal_t1_time = 58

abbrev pub rebinding_t2_time : ℕ
rebinding_t2_time = 59

abbrev pub client_identifier : ℕ
client_identifier = 61

abbrev pub option_end : ℕ
option_end = 255
