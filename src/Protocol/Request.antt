-- ===== src/Protocol/Request.antt =====
-- N_DHCP4_C_MESSAGE_*: the requests of a client.
use n_dhcp.Base.{ℕ}

abbrev pub discover : ℕ
discover = 1

abbrev pub inform : ℕ
inform = 2

abbrev pub select : ℕ
select = 3

abbrev pub ignore : ℕ
ignore = 4

abbrev pub renew : ℕ
renew = 5

abbrev pub rebind : ℕ
rebind = 6

abbrev pub reboot : ℕ
reboot = 7

abbrev pub release : ℕ
release = 8

abbrev pub decline : ℕ
decline = 9
