-- ===== src/Symtable/Rows11.antt =====
-- src/symtable.rs: the rows of lines 1445 to 1585.
use docsis_config_generator.Common.{List, [], ◌∷◌}
use docsis_config_generator.Symbol.{Symbol, Enc, Render}
use docsis_config_generator.Symtable.Row.{row}

abbrev pub rows11 : List Symbol
rows11 =
    row 1487 "QPDrainRateExponent" 10 1478 Enc.uchar Render.uchar 0 0
    ∷ row 498 "MetroEthernetServiceProfile" 72 0 Enc.nothing Render.aggregate 0 0
    ∷ row 499 "MESPReference" 1 498 Enc.uchar Render.uchar 1 255
    ∷ row 500 "MESPBandwidthProfile" 2 498 Enc.nothing Render.aggregate 0 0
    ∷ row 501 "CIR" 1 500 Enc.uint Render.uint 0 0
    ∷ row 502 "CBR" 2 500 Enc.uint Render.uint 0 0
    ∷ row 503 "EIR" 3 500 Enc.uint Render.uint 0 0
    ∷ row 504 "EBS" 4 500 Enc.uint Render.uint 0 0
    ∷ row 505 "CouplingFlag" 5 500 Enc.uchar Render.uchar 0 1
    ∷ row 506 "ColorMode" 6 500 Enc.nothing Render.aggregate 0 0
    ∷ row 507 "ColorIdentificationField" 1 506 Enc.uchar Render.uchar 0 9
    ∷ row 508 "ColorIdentificationFieldValue" 2 506 Enc.hexstr Render.hexstr 1 1
    ∷ row 509 "ColorMarking" 7 500 Enc.nothing Render.aggregate 0 0
    ∷ row 510 "ColorMarkingField" 1 509 Enc.uchar Render.uchar 0 5
    ∷ row 511 "ColorMarkingFieldValue" 2 509 Enc.hexstr Render.hexstr 1 1
    ∷ row 512 "MESPName" 3 498 Enc.strzero Render.strzero 2 254
    ∷ row 495 "NetworkTimingProfile" 73 0 Enc.nothing Render.aggregate 0 0
    ∷ row 496 "NetworkTimingProfileReference" 1 495 Enc.ushort Render.ushort 1 65536
    ∷ row 497 "NetworkTimingProfileName" 2 495 Enc.strzero Render.strzero 2 16
    ∷ row 481 "EnergyManagementParameter" 74 0 Enc.nothing Render.aggregate 0 0
    ∷ row 482 "EnergyManagementFeatureControl" 1 481 Enc.uint Render.uint 0 1
    ∷ row 483 "EnergyManagement1x1Mode" 2 481 Enc.nothing Render.aggregate 0 0
    ∷ row 484 "DownstreamActivityDetectionParameters" 1 483 Enc.nothing Render.aggregate 0 0
    ∷ row 485 "DownstreamEntryBitrateThreshold" 1 484 Enc.uint Render.uint 0 0
    ∷ row 486 "DownstreamEntryTimeThreshold" 2 484 Enc.ushort Render.ushort 1 65535
    ∷ row 487 "DownstreamExitBitrateThreshold" 3 484 Enc.uint Render.uint 0 0
    ∷ row 488 "DownstreamExitTimeThreshold" 4 484 Enc.ushort Render.ushort 1 65535
    ∷ row 489 "UpstreamActivityDetectionParameters" 2 483 Enc.nothing Render.aggregate 0 0
    ∷ row 490 "UpstreamEntryBitrateThreshold" 1 489 Enc.uint Render.uint 0 0
    ∷ row 491 "UpstreamEntryTimeThreshold" 2 489 Enc.ushort Render.ushort 1 65535
    ∷ row 492 "UpstreamExitBitrateThreshold" 3 489 Enc.uint Render.uint 0 0
    ∷ row 493 "UpstreamExitTimeThreshold" 4 489 Enc.ushort Render.ushort 1 65535
    ∷ row 494 "EnergyManagementCyclePeriod" 3 481 Enc.ushort Render.ushort 0 0
    ∷ row 1488 "EnergyManagementDLSMode" 4 481 Enc.nothing Render.aggregate 0 0
    ∷ row 1489 "DownstreamActivityDetectionParameters" 1 1488 Enc.nothing Render.aggregate 0 0
    ∷ row 1490 "DownstreamEntryBitrateThreshold" 1 1489 Enc.uint Render.uint 0 0
    ∷ row 1491 "DownstreamEntryTimeThreshold" 2 1489 Enc.ushort Render.ushort 1 65535
    ∷ row 1492 "DownstreamExitBitrateThreshold" 3 1489 Enc.uint Render.uint 0 0
    ∷ row 1493 "DownstreamExitTimeThreshold" 4 1489 Enc.ushort Render.ushort 1 65535
    ∷ row 1494 "UpstreamActivityDetectionParameters" 2 1488 Enc.nothing Render.aggregate 0 0
    ∷ row 1495 "UpstreamEntryBitrateThreshold" 1 1494 Enc.uint Render.uint 0 0
    ∷ row 1496 "UpstreamEntryTimeThreshold" 2 1494 Enc.ushort Render.ushort 1 65535
    ∷ row 1497 "UpstreamExitBitrateThreshold" 3 1494 Enc.uint Render.uint 0 0
    ∷ row 1498 "UpstreamExitTimeThreshold" 4 1494 Enc.ushort Render.ushort 1 65535
    ∷ row 479 "EnergyManagement1x1ModeIndicator" 75 0 Enc.uchar Render.uchar 0 2
    ∷ row 480 "CMUpstreamAQMDisable" 76 0 Enc.uchar Render.uchar 0 1
    ∷ row 130 "UNIControlEncodings" 79 0 Enc.nothing Render.aggregate 0 0
    ∷ row 131 "ContextCMIM" 1 130 Enc.hexstr Render.hexstr 0 0
    ∷ row 188 "UNIAdminStatus" 2 130 Enc.uchar Render.uchar 0 1
    ∷ row 189 "UNIAutoNegotiationStatus" 3 130 Enc.uchar Render.uchar 0 1
    ∷ row 190 "UNIOperatingSpeed" 4 130 Enc.uchar Render.uchar 0 6
    ∷ row 191 "UNIDuplex" 5 130 Enc.uchar Render.uchar 0 2
    ∷ row 345 "EEEStatus" 6 130 Enc.uchar Render.uchar 0 1
    ∷ row 346 "MaximumFrameSize" 7 130 Enc.ushort Render.ushort 0 0
    ∷ row 347 "PowerOverEthernetStatus" 8 130 Enc.uchar Render.uchar 0 1
    ∷ row 348 "MediaType" 9 130 Enc.uchar Render.uchar 0 1
    ∷ row 1419 "ManufacturerCVCChain" 81 0 Enc.hexstr Render.hexstr 0 255
    ∷ row 1537 "ManufacturerCVCChainFile" 81 0 Enc.nothing Render.hexstr 0 255
    ∷ row 1420 "CoSignerCVCChain" 82 0 Enc.hexstr Render.hexstr 0 255
    ∷ row 1538 "CoSignerCVCChainFile" 82 0 Enc.nothing Render.hexstr 0 255
    ∷ row 1499 "DTPModeConfiguration" 83 0 Enc.uchar Render.uchar 0 2
    ∷ row 1422 "DiplexerBandEdge" 84 0 Enc.nothing Render.aggregate 0 0
    ∷ row 1423 "DiplexerUpstreamUpperBandEdge" 1 1422 Enc.uchar Render.uchar 0 4
    ∷ row 1424 "DiplexerDownstreamLowerBandEdge" 2 1422 Enc.uchar Render.uchar 0 1
    ∷ row 1425 "DiplexerDownstreamUpperBandEdge" 3 1422 Enc.uchar Render.uchar 0 2
    ∷ row 1500 "QoSFrameworkforDOCSISEncodings" 88 0 Enc.nothing Render.aggregate 0 0
    ∷ row 1501 "LowLatencyDisable" 91 0 Enc.uchar Render.uchar 0 2
    ∷ row 1502 "DistributedHQoSEnable" 92 0 Enc.uchar Render.uchar 0 2
    ∷ row 1503 "UpstreamEHQoSASF" 93 0 Enc.nothing Render.aggregate 0 0
    ∷ row 1504 "ServiceFlowReference" 1 1503 Enc.ushort Render.ushort 1 65535
    ∷ row 1505 "TrafficPriority" 7 1503 Enc.uchar Render.uchar 0 7
    ∷ row 1506 "MaxSustainedRate" 8 1503 Enc.uint Render.uint 0 0
    ∷ row 1507 "MaxTrafficBurst" 9 1503 Enc.uint Render.uint 0 0
    ∷ row 1508 "MinReservedRate" 10 1503 Enc.uint Render.uint 0 0
    ∷ row 1509 "MinResPacketSize" 11 1503 Enc.ushort Render.ushort 0 65535
    ∷ row 1510 "EnhancedHQoSIntraASFSchedulingEncoding" 47 1503 Enc.nothing Render.aggregate 0 0
    ∷ row 1511 "ConstituentSFReference" 1 1510 Enc.ushort Render.ushort 1 65535
    ∷ row 1512 "ConstituentSFSCN" 3 1510 Enc.strzero Render.strzero 2 16
    ∷ row 1513 "ConstituentSFPriority" 4 1510 Enc.uchar Render.uchar 0 7
    ∷ row 1514 "ConstituentSFWeight" 5 1510 Enc.uchar Render.uchar 0 0
    ∷ row 1515 "DownstreamEHQoSASF" 94 0 Enc.nothing Render.aggregate 0 0
    ∷ row 1516 "ServiceFlowReference" 1 1515 Enc.ushort Render.ushort 1 65535
    ∷ row 1517 "TrafficPriority" 7 1515 Enc.uchar Render.uchar 0 7
    ∷ row 1518 "MaxSustainedRate" 8 1515 Enc.uint Render.uint 0 0
    ∷ row 1519 "MaxTrafficBurst" 9 1515 Enc.uint Render.uint 0 0
    ∷ row 1520 "MinReservedRate" 10 1515 Enc.uint Render.uint 0 0
    ∷ row 1521 "MinResPacketSize" 11 1515 Enc.ushort Render.ushort 0 65535
    ∷ row 1522 "EnhancedHQoSIntraASFSchedulingEncoding" 47 1515 Enc.nothing Render.aggregate 0 0
    ∷ row 1523 "ConstituentSFReference" 1 1522 Enc.ushort Render.ushort 1 65535
    ∷ row 1524 "ConstituentSFSCN" 3 1522 Enc.strzero Render.strzero 2 16
    ∷ row 1525 "ConstituentSFPriority" 4 1522 Enc.uchar Render.uchar 0 7
    ∷ row 1526 "ConstituentSFWeight" 5 1522 Enc.uchar Render.uchar 0 0
    ∷ row 1527 "AdvancedDiplexerBandEdge" 96 0 Enc.nothing Render.aggregate 0 0
    ∷ row 1528 "AdvDiplexerUpstreamUpperBandEdge" 1 1527 Enc.ushort Render.ushort 0 0
    ∷ row 1529 "AdvDiplexerDownstreamLowerBandEdge" 2 1527 Enc.ushort Render.ushort 0 0
    ∷ row 1530 "AdvDiplexerDownstreamUpperBandEdge" 3 1527 Enc.ushort Render.ushort 0 0
    ∷ row 1531 "AdvancedBandPlanSupport" 97 0 Enc.uchar Render.uchar 0 1
    ∷ row 1539 "DOCSISSyncConfigurations" 101 0 Enc.nothing Render.aggregate 0 0
    ∷ row 1540 "PTPMasterClockEnable" 1 1539 Enc.uchar Render.uchar 1 2
    ∷ row 1541 "PTPProfileConfiguration" 2 1539 Enc.uchar Render.uchar 0 3
    ∷ row 1542 "PTPMaxNumberofClockSlavesConfiguration" 3 1539 Enc.uchar Render.uchar 0 255
    ∷ row 1543 "SyncEClockEnable" 4 1539 Enc.uchar Render.uchar 1 2
    ∷ row 1544 "PTPAddressConfigurations" 102 0 Enc.nothing Render.aggregate 0 0
    ∷ row 1545 "PTPSourceIPAddressConfiguration" 1 1544 Enc.ip_ip6 Render.ip_ip6 0 0
    ∷ row 1546 "CMTSPTPIPAddressConfiguration" 2 1544 Enc.ip_ip6 Render.ip_ip6 0 0
    ∷ row 1547 "PTPDestMulticastMACAddressConfiguration" 3 1544 Enc.ether Render.ether 0 0
    ∷ row 175 "eRouter" 202 0 Enc.nothing Render.aggregate 0 0
    ∷ row 176 "InitializationMode" 1 175 Enc.uchar Render.uchar 0 3
    ∷ row 177 "TR69ManagementServer" 2 175 Enc.nothing Render.aggregate 0 0
    ∷ row 178 "EnableCWMP" 1 177 Enc.uchar Render.uchar 0 1
    ∷ row 179 "URL" 2 177 Enc.string Render.string 0 0
    ∷ row 180 "Username" 3 177 Enc.string Render.string 0 0
    ∷ row 181 "Password" 4 177 Enc.string Render.string 0 0
    ∷ row 182 "ConnectionRequestUsername" 5 177 Enc.string Render.string 0 0
    ∷ row 183 "ConnectionRequestPassword" 6 177 Enc.string Render.string 0 0
    ∷ row 184 "ACSOverride" 7 177 Enc.uchar Render.uchar 0 1
    ∷ row 156 "InitializationModeOverride" 3 175 Enc.uchar Render.uchar 0 1
    ∷ row 238 "RATransmissionInterval" 10 175 Enc.ushort Render.ushort 3 1800
    ∷ row 239 "SnmpMibObject" 11 175 Enc.nothing Render.snmp_object 0 0
    ∷ row 476 "TopologyModeEncoding" 42 175 Enc.uchar Render.uchar 1 2
    ∷ row 240 "VendorSpecific" 43 175 Enc.nothing Render.aggregate 0 0
    ∷ row 241 "VendorIdentifier" 8 240 Enc.hexstr Render.hexstr 3 3
    ∷ row 228 "SNMPv1v2cCoexistenceConfig" 53 175 Enc.nothing Render.aggregate 0 0
    ∷ row 229 "SNMPv1v2cCommunityName" 1 228 Enc.string Render.string 0 0
    ∷ row 230 "SNMPv1v2cTransportAddressAccess" 2 228 Enc.nothing Render.aggregate 0 0
    ∷ row 340 "SNMPv1v2cTransportAddress" 1 230 Enc.ip_ip6_port Render.ip_ip6_port 0 0
    ∷ row 349 "SNMPv1v2cTransportAddressMask" 2 230 Enc.ip_ip6_port Render.ip_ip6_port 0 0
    ∷ row 231 "SNMPv1v2cAccessViewType" 3 228 Enc.uchar Render.uchar 1 2
    ∷ row 232 "SNMPv1v2cAccessViewName" 4 228 Enc.string Render.string 0 0
    ∷ row 233 "SNMPv3AccessViewConfiguration" 54 175 Enc.nothing Render.aggregate 0 0
    ∷ row 234 "SNMPv3AccessViewName" 1 233 Enc.string Render.string 0 0
    ∷ row 235 "SNMPv3AccessViewSubtree" 2 233 Enc.oid Render.oid 0 0
    ∷ row 236 "SNMPv3AccessViewMask" 3 233 Enc.hexstr Render.hexstr 2 2
    ∷ row 237 "SNMPv3AccessViewType" 4 233 Enc.uchar Render.uchar 1 2
    ∷ row 1532 "EstbSettings" 217 0 Enc.nothing Render.aggregate 0 0
    ∷ row 1533 "IpModeControl" 1 1532 Enc.uchar Render.uchar 0 2
    ∷ row 1534 "Snmpv1v2Settings" 53 1532 Enc.nothing Render.aggregate 0 0
    ∷ row 1535 "Snmpv1v2CommunityName" 1 1534 Enc.string Render.string 1 32
    ∷ row 998 "GenericTLV" 0 0 Enc.nothing Render.special 0 0
    ∷ row 157 "MtaConfigDelimiter" 254 0 Enc.uchar Render.uchar 1 255
    ∷ row 999 "/*EndOfDataMkr*/" 255 0 Enc.nothing Render.special 0 0
    ∷ []
