-- ===== src/Network/Inet6/RoundTrip.antt =====
-- src/network.c: `inet_pton` reads what `inet_ntop` has printed.
use libsolcompat.Network.Inet6.Layout.{Layout}
