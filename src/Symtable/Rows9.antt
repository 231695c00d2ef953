-- ===== src/Symtable/Rows9.antt =====
-- src/symtable.rs: the rows of lines 1159 to 1301.
use docsis_config_generator.Common.{List, [], ◌∷◌}
use docsis_config_generator.Symbol.{Symbol, Enc, Render}
use docsis_config_generator.Symtable.Row.{row}

abbrev pub rows9 : List Symbol
rows9 =
    row 1415 "DACDisableEnableConfig" 1 1414 Enc.uchar Render.uchar 0 1
    ∷ row 1416 "CMIMEncoding" 2 1414 Enc.hexstr Render.hexstr 0 0
    ∷ row 1417 "UpstreamServiceClassName" 3 1414 Enc.strzero Render.strzero 2 16
    ∷ row 1418 "DownstreamServiceClassName" 4 1414 Enc.strzero Render.strzero 2 16
    ∷ row 208 "DUTFiltering" 45 0 Enc.nothing Render.aggregate 0 0
    ∷ row 209 "DUTControl" 1 208 Enc.uchar Render.uchar 0 1
    ∷ row 210 "DUTCMIM" 2 208 Enc.hexstr Render.hexstr 0 0
    ∷ row 534 "SNMPv1v2cCoexistenceConfig" 53 0 Enc.nothing Render.aggregate 0 0
    ∷ row 535 "SNMPv1v2cCommunityName" 1 534 Enc.string Render.string 0 0
    ∷ row 536 "SNMPv1v2cTransportAddressAccess" 2 534 Enc.nothing Render.aggregate 0 0
    ∷ row 537 "SNMPv1v2cTransportAddress" 1 536 Enc.ip_ip6_port Render.ip_ip6_port 0 0
    ∷ row 538 "SNMPv1v2cTransportAddressMask" 2 536 Enc.ip_ip6_port Render.ip_ip6_port 0 0
    ∷ row 539 "SNMPv1v2cAccessViewType" 3 534 Enc.uchar Render.uchar 1 2
    ∷ row 540 "SNMPv1v2cAccessViewName" 4 534 Enc.string Render.string 0 0
    ∷ row 541 "SNMPv3AccessViewConfiguration" 54 0 Enc.nothing Render.aggregate 0 0
    ∷ row 542 "SNMPv3AccessViewName" 1 541 Enc.string Render.string 0 0
    ∷ row 543 "SNMPv3AccessViewSubtree" 2 541 Enc.oid Render.oid 0 0
    ∷ row 544 "SNMPv3AccessViewMask" 3 541 Enc.hexstr Render.hexstr 1 2
    ∷ row 545 "SNMPv3AccessViewType" 4 541 Enc.uchar Render.uchar 1 2
    ∷ row 531 "SNMPCPEAccessControl" 55 0 Enc.uchar Render.uchar 0 1
    ∷ row 185 "ChannelAssignmentConfig" 56 0 Enc.nothing Render.aggregate 0 0
    ∷ row 186 "CaTransmit" 1 185 Enc.uchar Render.uchar 0 255
    ∷ row 187 "CaReceive" 2 185 Enc.uint Render.uint 88000000 860000000
    ∷ row 173 "SwUpgradeServer6" 58 0 Enc.ip6 Render.ip6 0 0
    ∷ row 530 "TFTPProvisionedModemIPv6Address" 59 0 Enc.ip6 Render.ip6 0 0
    ∷ row 546 "UpstreamDropPacketClassification" 60 0 Enc.nothing Render.aggregate 0 0
    ∷ row 547 "ClassifierReference" 1 546 Enc.uchar Render.uchar 1 255
    ∷ row 548 "ClassifierIdentifier" 2 546 Enc.ushort Render.ushort 1 65535
    ∷ row 549 "RulePriority" 5 546 Enc.uchar Render.uchar 0 0
    ∷ row 550 "DynamicServiceChangeAction" 7 546 Enc.uchar Render.uchar 0 2
    ∷ row 551 "IPv4PacketClassification" 9 546 Enc.nothing Render.aggregate 0 0
    ∷ row 552 "IPv4Tos" 1 551 Enc.hexstr Render.hexstr 3 3
    ∷ row 553 "IPProtocol" 2 551 Enc.ushort Render.ushort 0 257
    ∷ row 554 "IPv4SourceAddress" 3 551 Enc.ip Render.ip 0 0
    ∷ row 555 "IPv4SourceMask" 4 551 Enc.ip Render.ip 0 0
    ∷ row 556 "IPv4DestinationAddress" 5 551 Enc.ip Render.ip 0 0
    ∷ row 557 "IPv4DestinationMask" 6 551 Enc.ip Render.ip 0 0
    ∷ row 558 "SourcePortStart" 7 551 Enc.ushort Render.ushort 0 0
    ∷ row 559 "SourcePortEnd" 8 551 Enc.ushort Render.ushort 0 0
    ∷ row 560 "DestinationPortStart" 9 551 Enc.ushort Render.ushort 0 0
    ∷ row 561 "DestinationPortEnd" 10 551 Enc.ushort Render.ushort 0 0
    ∷ row 562 "EthernetLLCPacketClassification" 10 546 Enc.nothing Render.aggregate 0 0
    ∷ row 563 "DestinationMACAddress" 1 562 Enc.ethermask Render.ethermask 0 0
    ∷ row 564 "SourceMACAddress" 2 562 Enc.ether Render.ether 0 0
    ∷ row 565 "EthertypeDSAPMacType" 3 562 Enc.hexstr Render.hexstr 3 3
    ∷ row 566 "IEEE8021PQPacketClassification" 11 546 Enc.nothing Render.aggregate 0 0
    ∷ row 567 "UserPriority" 1 566 Enc.char_list Render.char_list 0 0
    ∷ row 568 "VlanID" 2 566 Enc.ushort Render.ushort 0 0
    ∷ row 569 "IPv6PacketClassification" 12 546 Enc.nothing Render.aggregate 0 0
    ∷ row 570 "IPv6TrafficClassRangeandMask" 1 569 Enc.hexstr Render.hexstr 3 3
    ∷ row 571 "IPv6FlowLabel" 2 569 Enc.hexstr Render.hexstr 4 4
    ∷ row 572 "IPv6NextHeaderType" 3 569 Enc.ushort Render.ushort 0 257
    ∷ row 573 "IPv6SourceAddress" 4 569 Enc.ip6 Render.ip6 0 0
    ∷ row 574 "IPv6SourcePrefixLength" 5 569 Enc.uchar Render.uchar 0 128
    ∷ row 575 "IPv6DestinationAddress" 6 569 Enc.ip6 Render.ip6 0 0
    ∷ row 576 "IPv6DestinationPrefixLength" 7 569 Enc.uchar Render.uchar 0 128
    ∷ row 577 "CMInterfaceMaskEncoding" 13 546 Enc.hexstr Render.hexstr 0 0
    ∷ row 578 "STagCTagFrameClassification" 14 546 Enc.nothing Render.aggregate 0 0
    ∷ row 579 "STPID" 1 578 Enc.hexstr Render.hexstr 2 2
    ∷ row 580 "SVID" 2 578 Enc.hexstr Render.hexstr 2 2
    ∷ row 581 "SPCP" 3 578 Enc.hexstr Render.hexstr 1 1
    ∷ row 582 "SDEI" 4 578 Enc.hexstr Render.hexstr 1 1
    ∷ row 583 "CTPID" 5 578 Enc.hexstr Render.hexstr 2 2
    ∷ row 584 "CVID" 6 578 Enc.hexstr Render.hexstr 2 2
    ∷ row 585 "CPCP" 7 578 Enc.hexstr Render.hexstr 1 1
    ∷ row 586 "CCFI" 8 578 Enc.hexstr Render.hexstr 1 1
    ∷ row 587 "STCI" 9 578 Enc.hexstr Render.hexstr 2 2
    ∷ row 588 "CTCI" 10 578 Enc.hexstr Render.hexstr 2 2
    ∷ row 589 "IEEE8021ahPacketClassification" 15 546 Enc.nothing Render.aggregate 0 0
    ∷ row 590 "ITPID" 1 589 Enc.hexstr Render.hexstr 2 2
    ∷ row 591 "ISID" 2 589 Enc.hexstr Render.hexstr 3 3
    ∷ row 592 "ITCI" 3 589 Enc.hexstr Render.hexstr 5 5
    ∷ row 593 "IPCP" 4 589 Enc.hexstr Render.hexstr 1 1
    ∷ row 594 "IDEI" 5 589 Enc.hexstr Render.hexstr 1 1
    ∷ row 595 "IUCA" 6 589 Enc.hexstr Render.hexstr 1 1
    ∷ row 596 "BTPID" 7 589 Enc.hexstr Render.hexstr 2 2
    ∷ row 597 "BTCI" 8 589 Enc.hexstr Render.hexstr 2 2
    ∷ row 598 "BPCP" 9 589 Enc.hexstr Render.hexstr 1 1
    ∷ row 599 "BDEI" 10 589 Enc.hexstr Render.hexstr 1 1
    ∷ row 600 "BVID" 11 589 Enc.hexstr Render.hexstr 2 2
    ∷ row 601 "BDA" 12 589 Enc.ether Render.ether 0 0
    ∷ row 602 "BSA" 13 589 Enc.ether Render.ether 0 0
    ∷ row 603 "ICMPv4ICMPv6PacketClassification" 16 546 Enc.nothing Render.aggregate 0 0
    ∷ row 604 "ICMPv4ICMPv6TypeStart" 1 603 Enc.uchar Render.uchar 0 255
    ∷ row 605 "ICMPv4ICMPv6TypeEnd" 2 603 Enc.uchar Render.uchar 0 255
    ∷ row 606 "MPLSClassificationEncoding" 17 546 Enc.nothing Render.aggregate 0 0
    ∷ row 607 "MPLSTCbits" 1 606 Enc.hexstr Render.hexstr 1 1
    ∷ row 608 "MPLSLabel" 2 606 Enc.hexstr Render.hexstr 3 3
    ∷ row 609 "VendorSpecific" 43 546 Enc.nothing Render.aggregate 0 0
    ∷ row 610 "CMLoadBalancingPolicyID" 1 609 Enc.uint Render.uint 0 0
    ∷ row 611 "CMLoadBalancingPriority" 2 609 Enc.uint Render.uint 0 0
    ∷ row 612 "CMLoadBalancingGroupID" 3 609 Enc.uint Render.uint 0 0
    ∷ row 613 "CMRangingClassIDExtension" 4 609 Enc.ushort Render.ushort 0 0
    ∷ row 615 "L2VPNEncoding" 5 609 Enc.nothing Render.aggregate 0 0
    ∷ row 616 "VPNIdentifier" 1 615 Enc.hexstr Render.hexstr 4 255
    ∷ row 617 "NSIEncapsulation" 2 615 Enc.nothing Render.aggregate 0 0
    ∷ row 618 "ServiceMultiplexingValueOther" 1 617 Enc.lenzero Render.lenzero 0 0
    ∷ row 619 "NSIEncapsulationSingleQTag" 2 617 Enc.ushort Render.ushort 0 4096
    ∷ row 620 "NSIEncapsulationDualQTag" 3 617 Enc.dual_qtag Render.dual_qtag 0 0
    ∷ row 621 "ServiceMultiplexingValueMPLSPW" 4 617 Enc.nothing Render.aggregate 0 0
    ∷ row 622 "MPLSPseudowireID" 1 621 Enc.uint Render.uint 0 0
    ∷ row 623 "MPLSPeerIpAddress" 2 621 Enc.char_ip_ip6 Render.char_ip_ip6 0 0
    ∷ row 624 "MPLSPseudowireType" 3 621 Enc.uchar Render.uchar 0 0
    ∷ row 625 "MPLSBackupPseudowireID" 4 621 Enc.uint Render.uint 0 0
    ∷ row 626 "MPLSBackupPeerIpAddress" 5 621 Enc.char_ip_ip6 Render.char_ip_ip6 0 0
    ∷ row 627 "ServiceMultiplexingValueL2TPv3Peer" 5 617 Enc.char_ip_ip6 Render.char_ip_ip6 0 0
    ∷ row 628 "IEEE8021ahEncapsulation" 6 617 Enc.nothing Render.aggregate 0 0
    ∷ row 629 "ITCIEncapsulation" 1 628 Enc.hexstr Render.hexstr 4 4
    ∷ row 630 "BDAEncapsulation" 2 628 Enc.hexstr Render.hexstr 6 6
    ∷ row 631 "BTCIEncapsulation" 3 628 Enc.hexstr Render.hexstr 2 2
    ∷ row 632 "ITPIDEncapsulation" 4 628 Enc.hexstr Render.hexstr 2 2
    ∷ row 633 "IPCPEncapsulation" 5 628 Enc.hexstr Render.hexstr 1 1
    ∷ row 634 "IDEIEncapsulation" 6 628 Enc.hexstr Render.hexstr 1 1
    ∷ row 635 "IUCAEncapsulation" 7 628 Enc.hexstr Render.hexstr 1 1
    ∷ row 636 "ISIDEncapsulation" 8 628 Enc.hexstr Render.hexstr 3 3
    ∷ row 637 "BTPIDEncapsulation" 9 628 Enc.hexstr Render.hexstr 2 2
    ∷ row 638 "BPCPEncapsulation" 10 628 Enc.hexstr Render.hexstr 1 1
    ∷ row 639 "BDEIEncapsulation" 11 628 Enc.hexstr Render.hexstr 1 1
    ∷ row 640 "BVIDEncapsulation" 12 628 Enc.hexstr Render.hexstr 2 2
    ∷ row 641 "ServiceMultiplexingValueIEEE8021adSTPID" 8 617 Enc.hexstr Render.hexstr 2 2
    ∷ row 642 "eSAFEDHCPSnooping" 3 615 Enc.hexstr Render.hexstr 0 0
    ∷ row 643 "CMInterfaceMaskCMIMSubtype" 4 615 Enc.hexstr Render.hexstr 0 0
    ∷ row 644 "AttachmentGroupID" 5 615 Enc.hexstr Render.hexstr 0 0
    ∷ row 645 "SourceAttachmentIndividualID" 6 615 Enc.hexstr Render.hexstr 0 0
    ∷ row 646 "TargetAttachmentIndividualID" 7 615 Enc.hexstr Render.hexstr 0 0
    ∷ row 647 "IngressUserPriority" 8 615 Enc.uchar Render.uchar 0 7
    ∷ row 648 "UserPriorityRange" 9 615 Enc.char_list Render.char_list 0 0
    ∷ row 649 "L2VPNSADescriptorSubtype" 10 615 Enc.hexstr Render.hexstr 14 14
    ∷ row 650 "PseudowireType" 12 615 Enc.uchar Render.uchar 4 5
    ∷ row 651 "L2VPNMode" 13 615 Enc.uchar Render.uchar 0 1
    ∷ row 658 "TPIDTranslation" 14 615 Enc.nothing Render.aggregate 0 0
    ∷ row 659 "UpstreamTPIDTranslation" 1 658 Enc.hexstr Render.hexstr 2 2
    ∷ row 660 "DownstreamTPIDTranslation" 2 658 Enc.hexstr Render.hexstr 2 2
    ∷ row 661 "UpstreamSTPIDTranslation" 3 658 Enc.hexstr Render.hexstr 2 2
    ∷ row 662 "DownstreamSTPIDTranslation" 4 658 Enc.hexstr Render.hexstr 2 2
    ∷ row 663 "UpstreamBTPIDTranslation" 5 658 Enc.hexstr Render.hexstr 2 2
    ∷ row 664 "DownstreamBTPIDTranslation" 6 658 Enc.hexstr Render.hexstr 2 2
    ∷ row 665 "UpstreamITPIDTranslation" 7 658 Enc.hexstr Render.hexstr 2 2
    ∷ row 666 "DownstreamITPIDTranslation" 8 658 Enc.hexstr Render.hexstr 2 2
    ∷ row 667 "L2CPProcessing" 15 615 Enc.nothing Render.aggregate 0 0
    ∷ row 668 "L2CPTunnelMode" 1 667 Enc.uchar Render.uchar 0 1
    ∷ row 669 "L2CPDMACAddress" 2 667 Enc.ether Render.ether 0 0
    ∷ row 670 "L2CPOverwrotingDMACAddress" 3 667 Enc.ether Render.ether 0 0
    ∷ []
