-- ===== src/Domain/Filters.antt =====
-- domain/filters.rs: the filters of hosts and of usage.
use simple_network_monitor.Prelude.{String, Bool, ◌&&◌, Option, List, is_none}
use simple_network_monitor.Domain.Clock.{Duration, DateTime}
use simple_network_monitor.Domain.Icmp.{HostStatus}
use simple_network_monitor.Domain.Usage.{UsageCollectionStatus}

pub record UsageFilter : Type 0 where
  pub status : Option UsageCollectionStatus
  pub inactive_console_for : Option Duration
  pub no_users_for : Option Duration
  pub now : DateTime

abbrev pub is_empty : UsageFilter → Bool
is_empty f = is_none f.status && is_none f.inactive_console_for && is_none f.no_users_for

pub record HostFilter : Type 0 where
  pub icmp_status : Option HostStatus
  pub group : Option String
  pub metadata : List (String × String)
  pub usage : UsageFilter
